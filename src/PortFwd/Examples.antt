-- ===== src/PortFwd/Examples.antt =====
-- Runs of the port-forwarding table at fixed inputs.
use fastrg_node.Base.{
  ℕ, List, [], ◌∷◌, ◌≡◌, refl, ◌⊎◌, none, some, ◌+◌, ◌*◌, ◌/◌, ◌%◌, arith, take, ◌==◌,
  if◌then◌else◌,
}
use fastrg_node.PortFwd.{Entry, Table, ByteOrder, reverse_lookup, store_all, add_stores}
use fastrg_node.PortFwd.Rules.{rule, IsTable, Op, add, remove, run, run_rules, run-mimics}
use fastrg_node.PortFwd.Publish.{add_stores-rule}

abbrev swap : ℕ → ℕ
swap x = x % 256 * 256 + x / 256

-- A little-endian machine.
abbrev little_endian : ByteOrder
little_endian = record { cpu_to_be_16 = swap; be_to_cpu_16 = swap }

abbrev free_entry : Entry
free_entry = record { dip = 0; iport = 0; is_active = 0; hit_count = 0 }

abbrev web_entry : Entry
web_entry = record { dip = 0x0a000005; iport = swap 80; is_active = 1; hit_count = 3 }

-- One rule, for port 8080.
abbrev one_rule : Table
one_rule p = if p == 8080 then web_entry else free_entry

one_rule-IsTable : IsTable one_rule
unfolding IsTable
one_rule-IsTable p = ground arith

abbrev ops : List Op
ops = add 8080 0x0a000006 81 ∷ add 2222 0x0a000007 22 ∷ remove 8080 ∷ []

run-mimics_example :
    reverse_lookup little_endian (run little_endian one_rule ops) (swap 2222)
    ≡ run_rules little_endian (λ p. rule (one_rule p)) ops (swap (swap 2222))
run-mimics_example =
    run-mimics little_endian one_rule (λ p. rule (one_rule p)) ops one_rule-IsTable (λ p. refl)
      (swap 2222)

add_stores-rule_example :
    let seen = rule (store_all (take 3 (add_stores little_endian 0x0a000005 80)) free_entry) in
    (seen ≡ none) ⊎ (seen ≡ some (0x0a000005, swap 80))
add_stores-rule_example = add_stores-rule little_endian 0x0a000005 80 3 free_entry refl
