-- ===== src/Peer/Timer.antt =====
-- peer/timer.go: timers that count calls of `Tick`. The timeout is not negative; that `onTimeout` ran
-- is the second result.
use go_consensus.Base.{
  ℕ, zero, suc, ◌+◌, ◌≡◌, refl, Bool, true, false, not, ◌&&◌, ◌∙◌, ltb, inl, inr, Bool-cases, arith,
  leb, if◌then◌else◌,
}

pub record TickingTimer : Type 0 where
  pub timeout : ℕ
  pub ticks_elapsed : ℕ
  pub paused : Bool

unfoldable pub make_ticking_timer : ℕ → TickingTimer
make_ticking_timer timeout = record { timeout = timeout; ticks_elapsed = 0; paused = true }

unfoldable pub tick : TickingTimer → TickingTimer × Bool
tick t =
    if t.paused
    then (t, false)
    else (let n = t.ticks_elapsed + 1 in
        if leb t.timeout n
        then (record t { ticks_elapsed = n; paused = true }, true)
        else (record t { ticks_elapsed = n }, false))

unfoldable pub reset : TickingTimer → TickingTimer
reset t = record t { paused = false; ticks_elapsed = 0 }

unfoldable pub reset_with_jitter : ℕ → TickingTimer → TickingTimer
reset_with_jitter jitter t = record t { paused = false; ticks_elapsed = jitter }

unfoldable pub stop : TickingTimer → TickingTimer
stop t = record t { paused = true; ticks_elapsed = 0 }

unfoldable pub is_set : TickingTimer → Bool
is_set t = not t.paused

-- How often the timer goes off in `n` ticks.
unfoldable pub expirations : ℕ → TickingTimer → ℕ
unfolding tick
expirations zero t = 0
expirations (suc n) t =
    let (t', off) = tick t in if off then suc (expirations n t') else expirations n t'

tick_paused : (t : TickingTimer) → t.paused ≡ true → tick t ≡ (t, false)
unfolding tick
tick_paused t h = rw (h, tick) refl

paused-expirations : (n : ℕ) (t : TickingTimer) → t.paused ≡ true → expirations n t ≡ 0
unfolding expirations
paused-expirations zero t h = refl
paused-expirations (suc n) t h = rw (tick_paused t h, expirations) (paused-expirations n t h)

tick_last :
    (t : TickingTimer)
    → t.paused ≡ false
    → leb t.timeout (t.ticks_elapsed + 1) ≡ true
    → tick t ≡ (record t { ticks_elapsed = t.ticks_elapsed + 1; paused = true }, true)
unfolding tick
tick_last t h e = ground arith

tick_early :
    (t : TickingTimer)
    → t.paused ≡ false
    → leb t.timeout (t.ticks_elapsed + 1) ≡ false
    → tick t ≡ (record t { ticks_elapsed = t.ticks_elapsed + 1 }, false)
unfolding tick
tick_early t h e = ground arith

-- Whether a running timer goes off in `n` ticks.
abbrev due : ℕ → TickingTimer → ℕ
due n t = if leb t.timeout (t.ticks_elapsed + n) && ltb 0 n then 1 else 0

running-expirations : (n : ℕ) (t : TickingTimer) → t.paused ≡ false → expirations n t ≡ due n t
unfolding expirations
running-expirations zero t h = ground arith
running-expirations (suc n) t h = elim (Bool-cases (leb t.timeout (t.ticks_elapsed + 1))) [
  | inl e ↦
      rw (tick_last t h e, expirations)
        (ground (
          arith,
          paused-expirations n (record t { ticks_elapsed = t.ticks_elapsed + 1; paused = true })
              refl,
        ))
  | inr e ↦
      rw (tick_early t h e, expirations)
        (ground (arith, running-expirations n (record t { ticks_elapsed = t.ticks_elapsed + 1 }) h))
]

-- After `Reset` a timer goes off exactly once in any number of ticks that reaches the timeout and is
-- not zero, and not at all in fewer; after `Stop` it does not go off.
pub reset-expirations :
    (n : ℕ) (t : TickingTimer)
    → (expirations n (reset t) ≡ (if leb t.timeout n && ltb 0 n then 1 else 0))
      × (expirations n (stop t) ≡ 0)
unfolding reset stop
reset-expirations n t =
    (running-expirations n (reset t) refl ∙ ground arith, paused-expirations n (stop t) refl)
