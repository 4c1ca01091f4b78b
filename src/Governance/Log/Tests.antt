-- ===== src/Governance/Log/Tests.antt =====
-- A log of two entries.
use distributed_intranet.Base.{ℕ, ◌-◌, ◌≡◌, refl, subst, true, none, some, inl, inr, [], ◌∷◌, arith}
use distributed_intranet.Base.Tests.{◌==◌, Bool-cases}
use distributed_intranet.Base.Lists.{length, Among, here, there, Among-nil}
use distributed_intranet.Base.Int.{pos}
use distributed_intranet.Crypto.{Crypto}
use distributed_intranet.Governance.Policy.{conservative_default}
use distributed_intranet.Governance.Error.{ok}
use distributed_intranet.Governance.Entry.{LogEntry, EntryBody, entry_hash}
use distributed_intranet.Governance.Log.{GovernanceLog, empty, insert_entry}
use distributed_intranet.Map.{get}
use distributed_intranet.Governance.Log.Fork.{
  parent_of, children_of, best_branch_below, is_final, canonical_chain,
}
use distributed_intranet.Governance.Log.Finality.{reconcile}
use distributed_intranet.Governance.Log.Branch.{Branch, leaf, step}
use distributed_intranet.Governance.Log.Choice.{
  Outweighs, best_branch_below-Branch, best_branch_below-Outweighs,
}
use distributed_intranet.Governance.Log.Growth.{NoCollision, insert_entry-IsSound, empty-IsSound}
use distributed_intranet.Governance.Log.Binding.{reconcile_keeps_final, final_on_canonical_chain}
use distributed_intranet.Governance.Log.Sound.{IsSound}
use distributed_intranet.Governance.Log.Linked.{IsLinked, insert_all, insert_all-IsLinked}

abbrev tape : Crypto
tape = record { hash_bytes = length; verify = λ _ _ _. true }

abbrev first_entry : LogEntry
first_entry = record {
  parent = none;
  timestamp = pos 10;
  author = 5;
  body = EntryBody.genesis 7 conservative_default [];
  signature = 0;
}

abbrev second_entry : LogEntry
second_entry = record {
  parent = some (entry_hash tape first_entry);
  timestamp = pos 20;
  author = 5;
  body = EntryBody.policy_change conservative_default;
  signature = 0;
}

abbrev written_log : GovernanceLog
unfolding entry_hash
written_log = record {
  entries =
      (entry_hash tape second_entry, second_entry)
      ∷ (entry_hash tape first_entry, first_entry)
      ∷ [];
  children = (entry_hash tape first_entry, (entry_hash tape second_entry, tt) ∷ []) ∷ [];
  root = some (entry_hash tape first_entry);
  finalized = none;
}

both_inserted : insert_all tape (first_entry ∷ second_entry ∷ []) empty ≡ ok written_log
unfolding insert_all empty
both_inserted = refl

insert_all-IsLinked_example : IsLinked written_log
insert_all-IsLinked_example =
    insert_all-IsLinked tape (first_entry ∷ second_entry ∷ []) written_log both_inserted

-- A log with a fork below its root, one branch of which has gone on.
abbrev on_parent : ℕ → LogEntry
on_parent p = record second_entry { parent = some p }

abbrev forked_log : GovernanceLog
forked_log = record {
  entries = (1, first_entry) ∷ (2, on_parent 1) ∷ (3, on_parent 1) ∷ (4, on_parent 3) ∷ [];
  children = (1, (2, tt) ∷ (3, tt) ∷ []) ∷ (3, (4, tt) ∷ []) ∷ [];
  root = some 1;
  finalized = some 3;
}

abbrev Fathers : ℕ → Type 0
Fathers p = (c : ℕ) → Among c (children_of forked_log p) → parent_of forked_log c ≡ some p

below_one : (c : ℕ) → Among c (2 ∷ 3 ∷ []) → parent_of forked_log c ≡ some 1
unfolding parent_of
below_one _ here = refl
below_one _ (there here) = refl
below_one _ (there (there m)) = absurd (Among-nil m)

below_three : (c : ℕ) → Among c (4 ∷ []) → parent_of forked_log c ≡ some 3
unfolding parent_of
below_three _ here = refl
below_three _ (there m) = absurd (Among-nil m)

forked_children : (p : ℕ) → Fathers p
unfolding children_of
forked_children p = elim (Bool-cases (1 == p)) [
  | inl one ↦ (let e : 1 ≡ p = ground arith in subst Fathers e below_one)
  | inr other ↦ elim (Bool-cases (3 == p)) [
    | inl three ↦ (let e : 3 ≡ p = ground arith in subst Fathers e below_three)
    | inr neither ↦ λ c m.
        let none_there : children_of forked_log p ≡ [] = ground arith in
        absurd (Among-nil (subst (λ l. Among c l) none_there m))
  ]
]

forked-IsSound : IsSound forked_log
unfolding parent_of get
forked-IsSound = record {
  rank = λ h. h - 1;
  falls = λ h p e. ground arith;
  closed = λ h p e. ground arith;
  bounded = λ h e. ground arith;
  linked = forked_children;
}

best_branch_below-Branch_example : Branch forked_log 1 (best_branch_below forked_log 1)
best_branch_below-Branch_example = best_branch_below-Branch forked_log forked-IsSound 1

short_branch : Branch forked_log 1 (2 ∷ [])
unfolding children_of
short_branch = step here (leaf refl)

best_branch_below-Outweighs_example :
    Outweighs forked_log 1 (best_branch_below forked_log 1) (2 ∷ [])
best_branch_below-Outweighs_example =
    best_branch_below-Outweighs forked_log forked-IsSound 1 (2 ∷ []) short_branch

longer_branch_taken : best_branch_below forked_log 1 ≡ 3 ∷ 4 ∷ []
unfolding best_branch_below
longer_branch_taken = refl

one_is_final : is_final forked_log 1 ≡ true
unfolding is_final
one_is_final = refl

reconcile_keeps_final_example : is_final (reconcile tape (pos 99) forked_log).0 1 ≡ true
reconcile_keeps_final_example =
    reconcile_keeps_final forked_log forked-IsSound 1 one_is_final tape (pos 99)

final_on_canonical_chain_example : Among 1 (canonical_chain forked_log)
final_on_canonical_chain_example =
    final_on_canonical_chain forked_log forked-IsSound 1 1 refl one_is_final

abbrev rooted_log : GovernanceLog
unfolding entry_hash
rooted_log = record {
  entries = (entry_hash tape first_entry, first_entry) ∷ [];
  children = [];
  root = some (entry_hash tape first_entry);
  finalized = none;
}

first_inserted : insert_entry tape first_entry empty ≡ ok rooted_log
unfolding insert_entry empty
first_inserted = refl

nothing_collides : NoCollision empty first_entry (entry_hash tape first_entry)
unfolding empty get
nothing_collides = inl refl

insert_entry-IsSound_example : IsSound rooted_log
insert_entry-IsSound_example =
    insert_entry-IsSound tape first_entry empty rooted_log first_inserted nothing_collides
      empty-IsSound
