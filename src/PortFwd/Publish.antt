-- ===== src/PortFwd/Publish.antt =====
-- The order of the stores in port_fwd_add and port_fwd_remove of src/pppd/nat.h, as a data-plane
-- thread sees it that looks a port up in between. A lookup here
-- reads the entry at one point of the sequence; the fences make the order visible to other threads.
use fastrg_node.Base.{ℕ, zero, suc, ◌≡◌, refl, none, some, ◌⊎◌, inl, inr, take}
use fastrg_node.PortFwd.{Entry, ByteOrder, store_all, add_stores, remove_stores}
use fastrg_node.PortFwd.Rules.{rule}

-- After any number of the stores of port_fwd_add on an entry that is not active, a lookup finds no
-- rule or the whole new one.
pub add_stores-rule :
    (b : ByteOrder) (dip iport n : ℕ) (e : Entry)
    → e.is_active ≡ 0
    → let seen = rule (store_all (take n (add_stores b dip iport)) e) in
      (seen ≡ none) ⊎ (seen ≡ some (dip, b.cpu_to_be_16 iport))
unfolding rule store_all add_stores
add_stores-rule b dip iport zero e h = inl (rw h refl)
add_stores-rule b dip iport (suc zero) e h = inl (rw h refl)
add_stores-rule b dip iport (suc (suc zero)) e h = inl (rw h refl)
add_stores-rule b dip iport (suc (suc (suc zero))) e h = inl (rw h refl)
add_stores-rule b dip iport (suc (suc (suc (suc zero)))) e h = inr refl
add_stores-rule b dip iport (suc (suc (suc (suc (suc n))))) e h = inr refl

-- After any number of the stores of port_fwd_remove, a lookup finds the old rule or none.
remove_stores-rule :
    (n : ℕ) (e : Entry)
    → let seen = rule (store_all (take n remove_stores) e) in (seen ≡ rule e) ⊎ (seen ≡ none)
unfolding rule store_all remove_stores
remove_stores-rule zero e = inl refl
remove_stores-rule (suc zero) e = inr refl
remove_stores-rule (suc (suc zero)) e = inr refl
remove_stores-rule (suc (suc (suc zero))) e = inr refl
remove_stores-rule (suc (suc (suc (suc zero)))) e = inr refl
remove_stores-rule (suc (suc (suc (suc (suc n))))) e = inr refl
