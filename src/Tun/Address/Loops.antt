-- ===== src/Tun/Address/Loops.antt =====
-- The five loops of planTunAddrReconciliation, as one prefix sees them: what they leave alone.
use mathlib.Core.List.{Memᴰ}
use sysnet_linux.Base.{
  ◌≡◌, refl, inl, inr, Bool, true, false, not, ◌||◌, List, [], ◌∷◌, Option, none, some, ok,
  Bool-cases, mem-keep_if, subst, ok-injective, if◌then◌else◌,
}
use sysnet_linux.Net.Addr.{is6}
use sysnet_linux.Net.Prefix.{Prefix, prefix_eq, prefix_eq_iff, is_valid}
use sysnet_linux.Tun.Prefixes.{tun_addr_prefix}
use sysnet_linux.Tun.Address.{
  Listed, Plan, is_unusable, has_nodad, has_prefix, has_address, is_deleted, delete_listed,
  by_prefix, by_address, set_nodad, set_nodad_of, add_new, add_new_of, renew_unusable,
  renew_unusable_of, replace_conflicts, replace_conflicts_of, delete_all, delete_unless_deleted,
  delete_undesired, is_retained,
}
use sysnet_linux.Tun.Address.Status.{
  Grows, Grows-refl, Grows-trans, noop-Grows, append_replace-Grows, delete_listed-Grows,
  by_prefix-found,
}

-- Each listed address goes with its prefix.
abbrev pub AreRead : List Listed → Type 0
AreRead current = (e : Listed) → Memᴰ e current → e.prefix ≡ tun_addr_prefix e.addr

module _ (current : List Listed) (read : AreRead current) (p : Prefix)
    (valid : is_valid p ≡ true) where
  pub set_nodad-other :
      (q : Prefix) (a b : Plan) → prefix_eq p q ≡ false → set_nodad current q a ≡ ok b → Grows p a b
  unfolding set_nodad
  set_nodad-other q a b n = of (by_prefix q current)
    where
      of : (o : Option Listed) → set_nodad_of q o a ≡ ok b → Grows p a b
      of none h = noop-Grows p a b h
      of (some e) h =
          elim (Bool-cases (not (is6 q.addr) || (is_unusable e.addr || has_nodad e.addr))) [
            | inl y ↦ noop-Grows p a b (rw y at h)
            | inr y ↦ append_replace-Grows p q a b n (rw y at h)
          ]

  pub add_new-other :
      (q : Prefix) (a b : Plan) → prefix_eq p q ≡ false → add_new current q a ≡ ok b → Grows p a b
  unfolding add_new
  add_new-other q a b n = of (by_prefix q current) (by_address q.addr current)
    where
      of : (o : Option Listed) (cs : List Listed) → add_new_of q o cs a ≡ ok b → Grows p a b
      of (some e) cs h = noop-Grows p a b h
      of none (c ∷ cs) h = noop-Grows p a b h
      of none [] h = append_replace-Grows p q a b n h

  -- An address that is listed under another prefix is deleted without effect on this one.
  elsewhere :
      (q : Prefix) (o : Option Prefix)
      → prefix_eq p q ≡ false
      → has_prefix q o ≡ true
      → has_prefix p o ≡ false
  elsewhere q none n h = refl
  elsewhere q (some r) n h = subst (λ t. prefix_eq p t ≡ false) ((prefix_eq_iff q r).0 h) n

  pub renew_unusable-other :
      (q : Prefix) (a b : Plan)
      → prefix_eq p q ≡ false
      → renew_unusable current q a ≡ ok b
      → Grows p a b
  unfolding renew_unusable
  renew_unusable-other q a b n = of (by_prefix q current) refl
    where
      of :
          (o : Option Listed)
          → by_prefix q current ≡ o
          → renew_unusable_of q o a ≡ ok b
          → Grows p a b
      of none f h = noop-Grows p a b h
      of (some e) f h = elim (Bool-cases (not (is6 q.addr) || not (is_unusable e.addr))) [
        | inl y ↦ noop-Grows p a b (rw y at h)
        | inr y ↦
            let (m, k) = by_prefix-found q current e f in
            Grows-trans p a (delete_listed e a) b
              (delete_listed-Grows p e a (read e m) valid (elsewhere q e.prefix n k))
              (append_replace-Grows p q (delete_listed e a) b n (rw y at h))
      ]

  pub delete_all-Grows :
      (es : List Listed) (a : Plan)
      → ((e : Listed) → Memᴰ e es → Memᴰ e current × (has_prefix p e.prefix ≡ false))
      → Grows p a (delete_all es a)
  delete_all-Grows [] a h = Grows-refl p a
  delete_all-Grows (e ∷ es) a h =
      Grows-trans p a (delete_unless_deleted e a) (delete_all es (delete_unless_deleted e a))
        (first (is_deleted e a))
        (delete_all-Grows es (delete_unless_deleted e a) (λ x m. h x (Memᴰ.tail m)))
    where
      first : (d : Bool) → Grows p a (if◌then◌else◌ d a (delete_listed e a))
      first true = Grows-refl p a
      first false =
          let (m, k) = h e (Memᴰ.head refl) in delete_listed-Grows p e a (read e m) valid k

  pub replace_conflicts-other :
      (q : Prefix) (a b : Plan)
      → prefix_eq p q ≡ false
      → ((e : Listed)
          → Memᴰ e (by_address q.addr current)
          → by_prefix q current ≡ none
          → has_prefix p e.prefix ≡ false)
      → replace_conflicts current q a ≡ ok b
      → Grows p a b
  unfolding replace_conflicts
  replace_conflicts-other q a b n k =
      of (by_prefix q current) (by_address q.addr current) refl
        (λ e m. (mem-keep_if (λ x. has_address q.addr x.prefix) current m).0) k
    where
      of :
          (o : Option Listed) (cs : List Listed)
          → by_prefix q current ≡ o
          → ((e : Listed) → Memᴰ e cs → Memᴰ e current)
          → ((e : Listed) → Memᴰ e cs → by_prefix q current ≡ none → has_prefix p e.prefix ≡ false)
          → replace_conflicts_of q o cs a ≡ ok b
          → Grows p a b
      of (some e) cs f l k h = noop-Grows p a b h
      of none [] f l k h = noop-Grows p a b h
      of none (c ∷ cs) f l k h =
          Grows-trans p a (delete_all (c ∷ cs) a) b
            (delete_all-Grows (c ∷ cs) a (λ e m. (l e m, k e m f)))
            (append_replace-Grows p q (delete_all (c ∷ cs) a) b n h)

  pub delete_undesired-other :
      (desired : List Prefix) (e : Listed) (a b : Plan)
      → Memᴰ e current
      → has_prefix p e.prefix ≡ false
      → delete_undesired desired e a ≡ ok b
      → Grows p a b
  unfolding delete_undesired
  delete_undesired-other desired e a b m n h =
      elim (Bool-cases (is_retained desired e.prefix || is_deleted e a)) [
        | inl y ↦ noop-Grows p a b (rw y at h)
        | inr y ↦
            subst (Grows p a) (ok-injective (rw y at h))
              (delete_listed-Grows p e a (read e m) valid n)
      ]
