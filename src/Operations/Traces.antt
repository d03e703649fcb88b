-- ===== src/Operations/Traces.antt =====
-- app/repositories/operations.py: a run of the methods, call after call.
use maxbot.Base.{List, [], ◌∷◌, ◌⊎◌, ◌≡◌}
use maxbot.Operations.Rows.{Database}
use maxbot.Operations.Steps.{Step, Steps}
use maxbot.Operations.Outcomes.{
  claim-Moves, mark_in_flight-Moves, mark_failed_unsent-Moves, retry-Moves, mark_unknown-Moves,
  mark_accepted-Moves,
}
use maxbot.Operations.Runs.{
  Call, create_call, claim_call, in_flight_call, failed_call, retry_call, unknown_call,
  accepted_call, recover_call, after_call, GuardReads, GuardsRead, create-Moves, after_call-Steps,
}

-- One call changes nothing or makes one transition; only the recovery makes several.
abbrev pub Follows : Call → Database → Database → Type 0
Follows (recover_call clock) s t = Steps s t
Follows _ s t = (t ≡ s) ⊎ Step s t

-- Every call of a run does.
abbrev pub AllFollow : List Call → Database → Type 0
AllFollow [] s = Unit
AllFollow (c ∷ calls) s = Follows c s (after_call c s) × AllFollow calls (after_call c s)

call-Follows : (c : Call) (s : Database) → GuardReads c → Follows c s (after_call c s)
unfolding after_call
call-Follows (create_call sha256 now hex guard c) s reads =
    create-Moves sha256 now hex guard c s reads
call-Follows (claim_call now id profile_id) s reads = claim-Moves id s now profile_id
call-Follows (in_flight_call now hex id route) s reads = mark_in_flight-Moves id s now hex route
call-Follows (failed_call now id error) s reads = mark_failed_unsent-Moves id s now error
call-Follows (retry_call now id proof guard) s reads = retry-Moves id s now proof guard reads
call-Follows (unknown_call now id error) s reads = mark_unknown-Moves id s now error
call-Follows (accepted_call now id provider) s reads = mark_accepted-Moves id s now provider
call-Follows (recover_call clock) s reads = after_call-Steps (recover_call clock) s reads

-- The methods refine the status machine: whatever they are called with, and in whatever order, each
-- call changes nothing or makes one transition, from a status that allows it, which writes the columns
-- that the transition names and no others; only the recovery makes several. Guards of the callers must
-- only read.
pub calls_follow_machine : (calls : List Call) (s : Database) → GuardsRead calls → AllFollow calls s
calls_follow_machine [] s reads = tt
calls_follow_machine (c ∷ calls) s reads =
    (call-Follows c s reads.0, calls_follow_machine calls (after_call c s) reads.1)
