-- ===== src/System/AtMostOnce.antt =====
-- However often an action is submitted, its tool runs at most once for an idempotency key.
use mathlib.Core.Path.{subst}
use phulax.Prelude.{
  ℕ, ◌+◌, ◌-◌, ◌==◌, ◌&&◌, str_eq, Bool, false, none, some, if◌then◌else◌, ◌≤◌, suc, String, Option,
  List, [], ◌∷◌, ◌≡◌, refl, sym, arith, inl, inr, length,
}
use phulax.Value.{FloatOps}
use phulax.ControlPlane.Tables.{count_where}
use phulax.ControlPlane.Db.{Execution, Db}
use phulax.ControlPlane.Executions.{ExecutionClaim, ExecutionComplete, has_key}
use phulax.ControlPlane.Executions.Outcomes.{answer}
use phulax.Gateway.Calls.{
  ActionEnvelope, Claims, Call, posted, resolved, claimed, executed, completed, World, executions,
}
use phulax.System.{completion_of, tables_after, linked, submit_all}
use phulax.System.Log.{wins_for, IsLog}
use phulax.Gateway.Action.{Outcome}
use phulax.Gateway.Submission.{submit_action}
use phulax.Gateway.Submission.Answers.{
  IsPrelude, begun, noted, asked, IsAnswered, refused, waiting, unrecorded, conflicting, duplicated,
  crashed, unhashed, finished, broken, ran,
}
use phulax.Gateway.Submission.Answered.{submit_action-IsAnswered}
use phulax.System.Log.Gateway.{submit_all-IsLog}
use phulax.ControlPlane.Service.Executed.{complete-executions}
use phulax.System.Served.{IsServed, weaken-IsServed, finish-IsServed, finish-count, claim-IsGood}

module _ {F : Type 0} (world : World F) (start : Db (Option String)) where
  abbrev rows_after : List (Call F) → List (Execution (Option String))
  rows_after calls = (tables_after start calls).executions

  -- The tables of a log: each claim that won has its row.
  record IsReplayed (calls : List (Call F)) : Type 0 where
    served : IsServed (length calls) (rows_after calls)
    counted :
        (key : ExecutionClaim) → wins_for key calls ≤ count_where (has_key key) (rows_after calls)

  other-IsReplayed :
      (c : Call F) (calls : List (Call F))
      → rows_after (c ∷ calls) ≡ rows_after calls
      → ((key : ExecutionClaim) → wins_for key (c ∷ calls) ≡ wins_for key calls)
      → IsReplayed calls
      → IsReplayed (c ∷ calls)
  other-IsReplayed c calls same wins h = record {
    served = subst (IsServed (suc (length calls))) (sym same) (weaken-IsServed _ _ h.served);
    counted = λ key. rw (same, wins key) (h.counted key);
  }

  log-IsReplayed :
      (calls : List (Call F))
      → start.executions ≡ []
      → IsLog (linked start world) calls
      → IsReplayed calls
  unfolding IsLog linked tables_after wins_for count_where
  log-IsReplayed [] empty h = record {
    served = rw empty (record {
      unique = record { ids = λ id. omega arith; keys = λ key. omega arith };
      begun = tt;
      bounded = λ id h. refl;
    });
    counted = λ key. omega arith;
  }
  log-IsReplayed (posted event recorded ∷ calls) empty h =
      other-IsReplayed _ calls refl (λ key. refl) (log-IsReplayed calls empty h)
  log-IsReplayed (resolved request answer ∷ calls) empty h =
      other-IsReplayed _ calls refl (λ key. refl) (log-IsReplayed calls empty h)
  log-IsReplayed (executed tool_name arguments ∷ calls) empty (p, h) =
      other-IsReplayed _ calls refl (λ key. refl) (log-IsReplayed calls empty h)
  log-IsReplayed (claimed claim reply ∷ calls) empty (e, h) =
      let before = log-IsReplayed calls empty h in
      let (served, counts) =
        claim-IsGood (length calls) claim (tables_after start calls) before.served in
      record {
        served = served;
        counted = λ key. rw e (omega (arith, counts key, before.counted key));
      }
  log-IsReplayed (completed id state meta ∷ calls) empty h =
      let before = log-IsReplayed calls empty h in
      let body : ExecutionComplete (Option String) = record {
        state = completion_of state;
        result_meta = meta;
      } in
      elim (complete-executions id body (tables_after start calls)) [
        | inl same ↦ other-IsReplayed _ calls same (λ key. refl) before
        | inr same ↦ record {
          served = subst (IsServed (suc (length calls))) (sym same) (
              weaken-IsServed _ _
                (finish-IsServed (length calls) id body (rows_after calls) before.served));
          counted = λ key.
              rw same
                (omega (arith, before.counted key, finish-count id body (rows_after calls) key));
        }
      ]

-- The submission is for the key: it has it, in the organization of its token.
abbrev pub is_for : {F : Type 0} → ExecutionClaim → ActionEnvelope F × Claims → Bool
is_for key (envelope, claims) = elim envelope.idempotency_key [
  | none ↦ false
  | some k ↦ (claims.org_id == key.org_id) && str_eq k key.idempotency_key
]

-- How often the submissions for the key, of those made one after the other, execute a tool.
unfoldable pub executions_for :
    {F : Type 0} ⦃ops : FloatOps F⦄
    → ExecutionClaim
    → World F
    → List (ActionEnvelope F × Claims)
    → List (Call F)
    → ℕ
executions_for key world [] calls = 0
executions_for key world ((envelope, claims) ∷ submissions) calls =
    let (outcome, calls') = submit_action world envelope claims calls in
    (if is_for key (envelope, claims) then executions calls' - executions calls else 0)
    + executions_for key world submissions calls'

module _ {F : Type 0} where
  IsPrelude-same :
      (key : ExecutionClaim) {calls c : List (Call F)}
      → IsPrelude calls c
      → (executions c ≡ executions calls) × (wins_for key c ≡ wins_for key calls)
  unfolding executions wins_for
  IsPrelude-same key begun = (refl, refl)
  IsPrelude-same key (noted event recorded p) = IsPrelude-same key p
  IsPrelude-same key (asked request answer p) = IsPrelude-same key p

  module _ (world : World F) (envelope : ActionEnvelope F) (claims : Claims)
      (key : ExecutionClaim) where
    -- What a submission adds to the claims that won, and to the executions if it is for the key.
    Pays : List (Call F) → List (Call F) → Type 0
    Pays calls c =
        (wins_for key calls ≤ wins_for key c)
        × ((if is_for key (envelope, claims) then executions c - executions calls else 0)
              + wins_for key calls
            ≤ wins_for key c)

    IsAnswered-Pays :
        {calls c : List (Call F)} {o : Outcome F}
        → IsAnswered world envelope claims calls o c
        → Pays calls c
    unfolding Pays executions wins_for
    IsAnswered-Pays (refused status rule p) = ground (arith, IsPrelude-same key p)
    IsAnswered-Pays (waiting r h p) = ground (arith, IsPrelude-same key p)
    IsAnswered-Pays (unrecorded hashed k e p) = ground (arith, IsPrelude-same key p)
    IsAnswered-Pays (conflicting hashed k e p) = ground (arith, IsPrelude-same key p)
    IsAnswered-Pays (duplicated hashed k out r e n h p) = ground (arith, IsPrelude-same key p)
    IsAnswered-Pays (crashed hashed k out e y p) = ground (arith, IsPrelude-same key p)
    IsAnswered-Pays (unhashed hashed k out e y p) = ground (arith, IsPrelude-same key p)
    IsAnswered-Pays (finished hashed k out r result meta e y h p) =
        ground (arith, IsPrelude-same key p)
    IsAnswered-Pays (broken e p) = ground (arith, IsPrelude-same key p)
    IsAnswered-Pays (ran r result e h p) = ground (arith, IsPrelude-same key p)

  executions_for-le :
      ⦃ops : FloatOps F⦄ (world : World F) (key : ExecutionClaim)
      (submissions : List (ActionEnvelope F × Claims)) (calls : List (Call F))
      → executions_for key world submissions calls + wins_for key calls
        ≤ wins_for key (submit_all world submissions calls)
  unfolding executions_for submit_all Pays
  executions_for-le world key [] calls = omega arith
  executions_for-le world key ((envelope, claims) ∷ submissions) calls =
      let (more, paid) =
        IsAnswered-Pays world envelope claims key
          (submit_action-IsAnswered world envelope claims calls) in
      let rest =
        executions_for-le world key submissions (submit_action world envelope claims calls).1 in
      omega arith

-- However many submissions gateways make one after the other over the executions of one control
-- plane, whatever agents, tokens, policies and tools they are about, and whatever the tools answer:
-- those with one idempotency key from one organization execute a tool at most once in all, if no
-- execution was recorded before.
pub submit_all-at_most_once :
    {F : Type 0} ⦃ops : FloatOps F⦄ (world : World F) (start : Db (Option String))
    (submissions : List (ActionEnvelope F × Claims)) (key : ExecutionClaim)
    → start.executions ≡ []
    → executions_for key (linked start world) submissions [] ≤ 1
unfolding IsLog wins_for
submit_all-at_most_once world start submissions key empty =
    let calls = submit_all (linked start world) submissions [] in
    let log = submit_all-IsLog (linked start world) submissions [] tt in
    let replayed = log-IsReplayed world start calls empty log in
    omega (
      arith,
      executions_for-le (linked start world) key submissions [],
      replayed.counted key,
      replayed.served.unique.keys key,
    )
