-- ===== src/Replay/Playback.antt =====
-- Playback: what a tick does, and that the ticks reach the present.
use react_ai_healthycare.Base.{
  ℕ, zero, suc, ◌+◌, ◌*◌, ◌≤◌, String, List, [], ◌∷◌, Option, none, some, true, false, ◌≡◌, refl,
  ap, ◌∙◌, inl, inr, truthy?, arith, Bool-cases, All, if◌then◌else◌,
}
use react_ai_healthycare.Base.Int.{ℤ, pos, ◌+ℤ◌, ◌≤ℤ◌, ◌<ℤ◌, leb_ℤ, +ℤ_parts, ℤ_antisym}
use react_ai_healthycare.Replay.{
  IsTime, PlaybackRate, Dates, Replay, Event, picks, plays, pauses, commits, sets_rate,
  steps_forward, steps_backward, ticks, commit, move_to, advance, advance_ms, on_tick, step, run,
  where_some,
}
use react_ai_healthycare.Replay.Laws.{to_iso-truthy, where_some_ind}

-- `t` later by `n` advances
abbrev pub later : ℤ → ℕ → PlaybackRate → ℤ
later t n rate = t +ℤ pos (n * advance_ms rate)

module _ (dates : Dates) where
  -- The interval runs at `rate` from a position with the time `t`.
  pub record IsPlayingFrom (rate : PlaybackRate) (t : ℤ) (s : Replay) : Type 0 where
    pub playing : s.is_playing ≡ true
    pub rated : s.playback_rate ≡ rate
    pub ticking : s.interval ≡ some rate
    pub position : String
    pub shown : s.as_of ≡ some position
    pub referred : truthy? s.as_of_ref ≡ some position
    pub dated : dates.get_time position ≡ some t

  pub record IsLive (s : Replay) : Type 0 where
    pub stopped : s.is_playing ≡ false
    pub unset : s.as_of ≡ none
    pub unset_ref : s.as_of_ref ≡ none

  -- A tick at `now_ms` goes back to live, if the next position is not before `now_ms`, and else it
  -- plays on from the next position.
  pub record TickedTo (rate : PlaybackRate) (t now_ms : ℤ) (s : Replay) : Type 0 where
    pub arrived : now_ms ≤ℤ later t 1 rate → IsLive s
    pub goes_on : later t 1 rate <ℤ now_ms → IsPlayingFrom rate (later t 1 rate) s

  in_range :
      (t now_ms : ℤ) (n : ℕ) → IsTime t → IsTime now_ms → t +ℤ pos n <ℤ now_ms → IsTime (t +ℤ pos n)
  in_range t now_ms n h k l = ground (arith, +ℤ_parts t (pos n))

  tick_opens :
      (rate : PlaybackRate) (t now_ms : ℤ) (s : Replay)
      → IsPlayingFrom rate t s
      → step dates (ticks now_ms) s ≡ advance dates rate now_ms (some t) s
  unfolding on_tick
  tick_opens rate t now_ms s p =
      ap (λ o. where_some o (λ r. on_tick dates r now_ms s) s) p.ticking
      ∙ (ap
            (λ o.
              where_some o (λ c. advance dates rate now_ms (dates.get_time c) s)
                (record s { is_playing = false }))
            p.referred
          ∙ ap (λ o. advance dates rate now_ms o s) p.dated)

  moved :
      (rate : PlaybackRate) (t u : ℤ) (o : Option String) (s : Replay)
      → IsPlayingFrom rate t s
      → dates.to_iso u ≡ o
      → (v : String) × (o ≡ some v)
      → IsPlayingFrom rate u (move_to dates o s)
  moved rate t u none s p e (v, h) = ground (arith, h)
  moved rate t u (some w) s p e (v, h) = record {
    playing = p.playing;
    rated = p.rated;
    ticking = p.ticking;
    position = w;
    shown = refl;
    referred = to_iso-truthy dates u w e;
    dated = dates.get_time-to_iso u w e;
  }

  one_later : (t : ℤ) (rate : PlaybackRate) → t +ℤ pos (advance_ms rate) ≡ later t 1 rate
  one_later t rate = ap (λ n. t +ℤ pos n) (omega arith)

  advance-TickedTo :
      (rate : PlaybackRate) (t now_ms : ℤ) (s : Replay)
      → IsPlayingFrom rate t s
      → IsTime now_ms
      → TickedTo rate t now_ms (advance dates rate now_ms (some t) s)
  advance-TickedTo rate t now_ms s p k =
      elim (Bool-cases (leb_ℤ now_ms (t +ℤ pos (advance_ms rate)))) [
        | inl h ↦ rw h (record {
          arrived = λ l. record { stopped = refl; unset = refl; unset_ref = refl };
          goes_on = λ l.
              absurd
                (ground (arith, one_later t rate, ap (λ z. leb_ℤ now_ms z) (one_later t rate)));
        })
        | inr h ↦ rw h (record {
          arrived = λ l. absurd (ground (arith, one_later t rate));
          goes_on = λ l. rw (← one_later t rate) (
              moved rate t (t +ℤ pos (advance_ms rate)) _ s p refl (
                dates.to_iso_lem _ (
                  in_range t now_ms (advance_ms rate) (dates.get_time-IsTime p.position t p.dated) k
                    (ground arith))));
        })
      ]

  -- A tick of a playing clock at `now_ms`, a time that a date can hold, goes back to live, if its
  -- position and the advance of the rate are not before `now_ms`. Else it plays on from there.
  pub tick-TickedTo :
      (rate : PlaybackRate) (t now_ms : ℤ) (s : Replay)
      → IsPlayingFrom rate t s
      → IsTime now_ms
      → TickedTo rate t now_ms (step dates (ticks now_ms) s)
  tick-TickedTo rate t now_ms s p k =
      rw (tick_opens rate t now_ms s p) (advance-TickedTo rate t now_ms s p k)

  -- A tick at a time up to `bound`, or a render.
  abbrev pub IsPlayback : ℤ → Event → Type 0
  IsPlayback bound (ticks now_ms) = IsTime now_ms × (now_ms ≤ℤ bound)
  IsPlayback bound commits = Unit
  IsPlayback bound (picks v) = ⊥
  IsPlayback bound plays = ⊥
  IsPlayback bound pauses = ⊥
  IsPlayback bound (sets_rate r) = ⊥
  IsPlayback bound (steps_forward n) = ⊥
  IsPlayback bound (steps_backward n) = ⊥

  abbrev pub tick_count : List Event → ℕ
  tick_count [] = 0
  tick_count (ticks now_ms ∷ es) = suc (tick_count es)
  tick_count (_ ∷ es) = tick_count es

  +ℤ_assoc : (t : ℤ) (a b : ℕ) → (t +ℤ pos a) +ℤ pos b ≡ t +ℤ pos (a + b)
  +ℤ_assoc t a b =
      ℤ_antisym _ _
        (omega (arith, +ℤ_parts t (pos a), +ℤ_parts (t +ℤ pos a) (pos b), +ℤ_parts t (pos (a + b))))
        (omega (arith, +ℤ_parts t (pos a), +ℤ_parts (t +ℤ pos a) (pos b), +ℤ_parts t (pos (a + b))))

  rounds : (m a : ℕ) → 1 * a + m * a ≡ suc m * a
  rounds m a = omega arith

  later-suc :
      (t : ℤ) (m : ℕ) (rate : PlaybackRate) → later (later t 1 rate) m rate ≡ later t (suc m) rate
  later-suc t m rate = +ℤ_assoc t _ _ ∙ ap (λ n. t +ℤ pos n) (rounds m (advance_ms rate))

  commit-IsPlayingFrom :
      (rate : PlaybackRate) (t : ℤ) (s : Replay)
      → IsPlayingFrom rate t s
      → IsPlayingFrom rate t (commit s)
  unfolding commit
  commit-IsPlayingFrom rate t s p = record {
    playing = p.playing;
    rated = p.rated;
    ticking = ap (λ b. if b then some s.playback_rate else none) p.playing ∙ ap some p.rated;
    position = p.position;
    shown = p.shown;
    referred = p.referred;
    dated = p.dated;
  }

  idle_tick :
      (rate : PlaybackRate) (now_ms : ℤ) (s : Replay)
      → IsLive s
      → IsLive (on_tick dates rate now_ms s)
  unfolding on_tick
  idle_tick rate now_ms s l =
      rw
        (ap
          (λ o.
            where_some (truthy? o) (λ c. advance dates rate now_ms (dates.get_time c) s)
              (record s { is_playing = false }))
          l.unset_ref)
        (record { stopped = refl; unset = l.unset; unset_ref = l.unset_ref })

  playback_stays-IsLive :
      (bound : ℤ) (es : List Event) (s : Replay)
      → IsLive s
      → All (IsPlayback bound) es
      → IsLive (run dates es s)
  unfolding commit
  playback_stays-IsLive bound [] s l h = l
  playback_stays-IsLive bound (ticks now_ms ∷ es) s l h =
      playback_stays-IsLive bound es _
        (where_some_ind IsLive s.interval _ s l λ rate e. idle_tick rate now_ms s l) h.1
  playback_stays-IsLive bound (commits ∷ es) s l h =
      playback_stays-IsLive bound es (commit s)
        (record { stopped = l.stopped; unset = l.unset; unset_ref = l.unset_ref }) h.1
  playback_stays-IsLive bound (picks v ∷ es) s l h = absurd h.0
  playback_stays-IsLive bound (plays ∷ es) s l h = absurd h.0
  playback_stays-IsLive bound (pauses ∷ es) s l h = absurd h.0
  playback_stays-IsLive bound (sets_rate r ∷ es) s l h = absurd h.0
  playback_stays-IsLive bound (steps_forward n ∷ es) s l h = absurd h.0
  playback_stays-IsLive bound (steps_backward n ∷ es) s l h = absurd h.0

  not_yet :
      (t bound now_ms : ℤ) (m : ℕ) (rate : PlaybackRate)
      → now_ms ≤ℤ bound
      → later t 1 rate <ℤ now_ms
      → bound ≤ℤ later t (suc m) rate
      → 1 ≤ m
  not_yet t bound now_ms zero rate h l b = absurd (omega arith)
  not_yet t bound now_ms (suc m) rate h l b = omega arith

  -- If a clock that plays from the time `t` only gets ticks at times up to `bound`, and renders, and
  -- there is a tick and so many that `t` and the advances of all of them reach `bound`, then playback
  -- has ended and the view is live.
  pub playback_ends :
      (rate : PlaybackRate) (t bound : ℤ) (es : List Event) (s : Replay)
      → IsPlayingFrom rate t s
      → All (IsPlayback bound) es
      → 1 ≤ tick_count es
      → bound ≤ℤ later t (tick_count es) rate
      → IsLive (run dates es s)
  playback_ends rate t bound [] s p h c b = absurd (omega arith)
  playback_ends rate t bound (ticks now_ms ∷ es) s p h c b =
      let n = tick-TickedTo rate t now_ms s p h.0.0 in
      elim (Bool-cases (leb_ℤ now_ms (later t 1 rate))) [
        | inl q ↦ playback_stays-IsLive bound es _ (n.arrived (ground arith)) h.1
        | inr q ↦
            let early : later t 1 rate <ℤ now_ms = ground arith in
            playback_ends rate (later t 1 rate) bound es _ (n.goes_on early) h.1
              (not_yet t bound now_ms (tick_count es) rate h.0.1 early b)
              (rw (later-suc t (tick_count es) rate) b)
      ]
  playback_ends rate t bound (commits ∷ es) s p h c b =
      playback_ends rate t bound es (commit s) (commit-IsPlayingFrom rate t s p) h.1 c b
  playback_ends rate t bound (picks v ∷ es) s p h c b = absurd h.0
  playback_ends rate t bound (plays ∷ es) s p h c b = absurd h.0
  playback_ends rate t bound (pauses ∷ es) s p h c b = absurd h.0
  playback_ends rate t bound (sets_rate r ∷ es) s p h c b = absurd h.0
  playback_ends rate t bound (steps_forward n ∷ es) s p h c b = absurd h.0
  playback_ends rate t bound (steps_backward n ∷ es) s p h c b = absurd h.0
