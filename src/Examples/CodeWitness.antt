-- ===== src/Examples/CodeWitness.antt =====
-- The meter on a concrete block: one candidate is committed, one is not.
use dogeos_reth.Prelude.{◌≡◌, ◌≢◌, ◌≤◌, refl, true, false, none, some, List, [], ◌∷◌, All, arith}
use dogeos_reth.CodeWitness.{
  new, code_bytes, begin_transaction, accept_transaction, reject_transaction,
}
use dogeos_reth.CodeWitness.Inspector.{
  Context, CodeWitnessInspector, Hook, on_initialize_interp, on_create, on_step, other, run_hooks,
}
use dogeos_reth.CodeWitness.Keeps.{IsSizedHook}
use dogeos_reth.CodeWitness.Union.{total}
use dogeos_reth.CodeWitness.Budget.{Candidate, inspector, meter_block, accepted_code_fits}
use dogeos_reth.CodeWitness.Rollback.{AnyCode, reject_restores, exceeded_never_accepted}

abbrev context : Context
context = record {
  authorization_list_len = 1;
  evm_state =
      record {
        address = 5;
        code = some (record { code_hash = 30; original_len = 30; eip7702_address = none });
      }
      ∷ [];
}

abbrev pub hooks : List Hook
hooks = on_create context ∷ on_initialize_interp context (some 5) 40 40 ∷ on_step other [] ∷ []

abbrev block : List Candidate
block =
    record { hooks = hooks; committed = true }
    ∷ record { hooks = on_initialize_interp context none 60 60 ∷ []; committed = false }
    ∷ []

accepted_code_fits_example : total (meter_block block (new 200 10)).accepted ≤ 200
accepted_code_fits_example =
    accepted_code_fits (λ hash. hash) 200 block 10 (omega arith)
      (((refl, tt), (((refl, tt), refl), (tt, tt))), ((((refl, tt), refl), tt), tt))

abbrev start : CodeWitnessInspector
start = inspector (new 200 10)

sized : All (IsSizedHook AnyCode) hooks
sized = ((tt, tt), (((tt, tt), tt), (tt, tt)))

reject_restores_example :
    reject_transaction (run_hooks hooks start).meter ≡ begin_transaction start.meter
reject_restores_example = reject_restores hooks start sized

abbrev stopped : CodeWitnessInspector
stopped = inspector (record start.meter { exceeded = some code_bytes })

is_stopped : stopped.meter.exceeded ≢ none
is_stopped h = cc

exceeded_never_accepted_example :
    accept_transaction (run_hooks hooks stopped).meter ≡ ((run_hooks hooks stopped).meter, false)
exceeded_never_accepted_example = exceeded_never_accepted hooks stopped sized is_stopped
