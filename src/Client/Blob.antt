-- ===== src/Client/Blob.antt =====
-- `postBlob`: a request whose answer is binary. A failure to read the body of an error gives null.
use react_ai_healthycare.Base.{
  ℕ, String, List, [], ◌∷◌, Option, not, if◌then◌else◌, eqb, ◌or◌, ◌≡◌, refl, arith, inl, inr,
  Bool-cases, is_white,
}
use react_ai_healthycare.Api.Json.{Json, null}
use react_ai_healthycare.Client.{
  Thrown, api_error, aborted, network_error, Effect, on_unauthorized, toast, rate_limit_message,
  status_message, is_ok, extract_api_message,
}
use react_ai_healthycare.Client.MessageLaws.{extract-HasText}
use react_ai_healthycare.Client.Laws.{HasFailedWith, is_blank-status_message}

-- `json` is what reading an error's body as JSON gives.
pub record BlobResponse (B : Type 0) : Type 0 where
  pub status : ℕ
  pub json : Option Json
  pub blob : B

-- What the fetch gives; the timeout after 120 seconds aborts it.
pub data Fetched (B : Type 0) : Type 0 where
  responded : BlobResponse B → Fetched B
  timed_out : Fetched B
  failed : (reason : String) → Fetched B

pub data BlobOutcome (B : Type 0) : Type 0 where
  returned : B → BlobOutcome B
  threw : Thrown → BlobOutcome B

unfoldable pub conclude_blob : {B : Type 0} → String → BlobResponse B → BlobOutcome B × List Effect
conclude_blob path res =
    if eqb res.status 401
    then (threw (api_error res.status null "Unauthorized"), on_unauthorized ∷ [])
    else (if eqb res.status 429
        then (threw (api_error res.status null "Rate limited"), toast rate_limit_message ∷ [])
        else (if not (is_ok res.status)
            then (
              threw (
                  api_error res.status (res.json or null) (
                    extract_api_message (res.json or null)
                      (status_message "POST" path res.status))),
              [],
            )
            else (returned res.blob, [])))

unfoldable pub post_blob : {B : Type 0} → String → Fetched B → BlobOutcome B × List Effect
unfolding conclude_blob
post_blob path (responded res) = conclude_blob path res
post_blob path timed_out = (threw aborted, [])
post_blob path (failed reason) = (threw (network_error reason), [])

abbrev pub IsConcluded : {B : Type 0} → BlobOutcome B × List Effect → Type 0
IsConcluded (returned blob, es) = es ≡ []
IsConcluded (threw e, es) = HasFailedWith e es

conclude_blob-IsConcluded :
    {B : Type 0} (path : String) (res : BlobResponse B) → IsConcluded (conclude_blob path res)
unfolding conclude_blob is_white
conclude_blob-IsConcluded path res = elim (Bool-cases (eqb res.status 401)) [
  | inl h ↦ rw h (ground (arith, h), ground (arith, h), refl)
  | inr h ↦ elim (Bool-cases (eqb res.status 429)) [
    | inl g ↦ rw h (rw g (ground (arith, h, g), ground (arith, g), refl))
    | inr g ↦ elim (Bool-cases (is_ok res.status)) [
      | inl k ↦ rw h (rw g (rw k refl))
      | inr k ↦ rw h (
          rw g (
            rw k (
              ground (arith, h, g),
              k,
              extract-HasText (res.json or null) (status_message "POST" path res.status)
                  (is_blank-status_message "POST" path res.status),
            )))
    ]
  ]
]

-- However the fetch ends, the errors of a binary request have the same effects as those of the others.
pub post_blob-IsConcluded :
    {B : Type 0} (path : String) (f : Fetched B) → IsConcluded (post_blob path f)
unfolding post_blob
post_blob-IsConcluded path (responded res) = conclude_blob-IsConcluded path res
post_blob-IsConcluded path timed_out = refl
post_blob-IsConcluded path (failed reason) = refl
