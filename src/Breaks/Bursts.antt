-- ===== src/Breaks/Bursts.antt =====
-- app/campaign_pacing.py: `note_human_burst`, message after message.
use native.Mathlib.Nat as Nat
use maxbot.Base.{ℕ, suc, ◌+◌, ℤ, Option, zero, List, [], ◌∷◌}
use maxbot.Breaks.Pauses.{Callback, Runtime, Human, note_human_burst}
use maxbot.Breaks.Errors.{time_at}
use mathlib.Core.Option

-- Messages of an account, sent at these times.
unfoldable pub after_messages : Human → ℤ → List ℕ → Runtime → Runtime
unfolding note_human_burst
after_messages h profile_id [] rt = rt
after_messages h profile_id (now ∷ times) rt =
    after_messages h profile_id times (note_human_burst h now profile_id rt)

abbrev one_break : Callback → ℕ
one_break (Callback.persist p) = 0
one_break (Callback.log_stopped p m n) = 0
one_break (Callback.log_available p) = 0
one_break (Callback.log_break p n m until) = 1

-- The breaks that were logged.
abbrev pub breaks_in : List Callback → ℕ
breaks_in [] = 0
breaks_in (c ∷ rest) = one_break c + breaks_in rest

-- The end of a break that began with the message of this number, counted from one; number 0 stands
-- for no message, and leaves what was there before.
abbrev pub until_after : ℕ → ℕ → List ℕ → Option ℕ → Option ℕ
until_after length_of_break zero times former = former
until_after length_of_break (suc i) times former =
    Option.map (λ t. t + length_of_break) (time_at i times)
