-- ===== src/Mempool/Pending.antt =====
-- `GetPending`: the order of its result, and the map that Go ranges over in no fixed order.
use mathlib.Core.Bool.{Bool-set, false≢true}
use mathlib.Core.List.{Mem, Perm, mem-cons, mem-cons_self, mem-cons_of_mem, not-mem-nil, perm-cons}
use mathlib.Core.List.Perm
use mathlib.Core.Logic.Or
use mathlib.Core.Path.{subst, ap₂}
use mathlib.Core.HLevel.{hedberg}
use native.Mathlib.Decide.{ℕ_discrete}
use distributed_p2p_ledger.Base.{
  ◌≡◌, sym, ap, ◌∙◌, Bool-cases, true, false, List, [], ◌∷◌, Bytes, arith, All, All-map, Distinct,
  has, ltb_ₛ, ltb_ₛ_trans, ltb_ₛ_total, ltb_ₛ_irrefl, Map, keys, values, inl, inr, ==ₛ_refl,
}
use distributed_p2p_ledger.Models.Transaction.{Transaction}
use distributed_p2p_ledger.Mempool.{Mempool, insert_by_id, sort_by_id, get_pending}
use distributed_p2p_ledger.Mempool.Invariant.{IsOwn, IsValidPool}

-- No element has a smaller ID than one before it: what sort.Slice guarantees.
abbrev pub IsById : List Transaction → Type 0
IsById [] = Unit
IsById (x ∷ xs) = All (λ (y : Transaction). ltb_ₛ y.id x.id ≡ false) xs × IsById xs

insert_by_id-perm : (tx : Transaction) (xs : List Transaction) → Perm (insert_by_id tx xs) (tx ∷ xs)
unfolding insert_by_id
insert_by_id-perm tx [] = Perm.refl (tx ∷ [])
insert_by_id-perm tx (x ∷ xs) = elim (Bool-cases (ltb_ₛ x.id tx.id)) [
  | inl e ↦ rw e (Perm.trans (Perm.cons x (insert_by_id-perm tx xs)) (Perm.swap tx x xs))
  | inr e ↦ rw e (Perm.refl (tx ∷ x ∷ xs))
]

pub sort_by_id-perm : (xs : List Transaction) → Perm (sort_by_id xs) xs
unfolding sort_by_id
sort_by_id-perm [] = Perm.refl []
sort_by_id-perm (x ∷ xs) =
    Perm.trans (insert_by_id-perm x (sort_by_id xs)) (Perm.cons x (sort_by_id-perm xs))

-- The order is transitive as sort.Slice reads it.
not_below : (x y z : Bytes) → ltb_ₛ y x ≡ false → ltb_ₛ x z ≡ false → ltb_ₛ y z ≡ false
not_below x y z h k = ground (arith, ltb_ₛ_trans y z x, ltb_ₛ_total x z)

insert_by_id-All {κ} :
    (P : Transaction → Type κ) (tx : Transaction) (xs : List Transaction)
    → P tx
    → All P xs
    → All P (insert_by_id tx xs)
unfolding insert_by_id
insert_by_id-All P tx [] p h = (p, tt)
insert_by_id-All P tx (x ∷ xs) p h = ground (arith, insert_by_id-All P tx xs p h.1)

insert_by_id-IsById :
    (tx : Transaction) (xs : List Transaction) → IsById xs → IsById (insert_by_id tx xs)
unfolding insert_by_id
insert_by_id-IsById tx [] h = (tt, tt)
insert_by_id-IsById tx (x ∷ xs) h = elim (Bool-cases (ltb_ₛ x.id tx.id)) [
  | inl e ↦ rw e (
    insert_by_id-All (λ y. ltb_ₛ y.id x.id ≡ false) tx xs
        (ground (arith, ltb_ₛ_trans tx.id x.id tx.id, ltb_ₛ_irrefl tx.id)) h.0,
    insert_by_id-IsById tx xs h.1,
  )
  | inr e ↦ rw e (
    (
      e,
      All-map (λ y. ltb_ₛ y.id x.id ≡ false) (λ y. ltb_ₛ y.id tx.id ≡ false)
          (λ y k. not_below x.id y.id tx.id k e) xs h.0,
    ),
    h,
  )
]

pub sort_by_id-IsById : (xs : List Transaction) → IsById (sort_by_id xs)
unfolding sort_by_id
sort_by_id-IsById [] = tt
sort_by_id-IsById (x ∷ xs) = insert_by_id-IsById x (sort_by_id xs) (sort_by_id-IsById xs)

Transaction-discrete : Discrete Transaction
Transaction-discrete = hlevel ℕ_discrete

Transaction-set : IsSet Transaction
Transaction-set = hedberg Transaction-discrete

-- Elements with the same ID are the same.
abbrev IdsDiffer : List Transaction → Type 0
IdsDiffer l = (a b : Transaction) → Mem a l → Mem b l → a.id ≡ b.id → a ≡ b

All-mem :
    (P : Transaction → Type 0) (prop : (a : Transaction) → IsProp (P a))
    → (x : Transaction) (xs : List Transaction) → All P xs
    → Mem x xs
    → P x
All-mem P prop x [] h m = absurd (not-mem-nil m)
All-mem P prop x (y ∷ xs) h m =
    Or.elim (prop x) (mem-cons.0 m) (λ e. subst P (sym e) h.0) (All-mem P prop x xs h.1)

-- A member of a sorted list is its head or not below it.
not_below_head :
    (x y : Transaction) (ys : List Transaction)
    → IsById (y ∷ ys)
    → Mem x (y ∷ ys)
    → ltb_ₛ x.id y.id ≡ false
not_below_head x y ys h m =
    Or.elim (Bool-set _ _) (mem-cons.0 m) (λ e. rw e (ltb_ₛ_irrefl y.id))
      (All-mem (λ z. ltb_ₛ z.id y.id ≡ false) (λ z. Bool-set _ _) x ys h.0)

-- Two sorted lists with the same elements are equal.
sorted_unique :
    (xs ys : List Transaction) → IdsDiffer ys → IsById xs → IsById ys → Perm xs ys → xs ≡ ys
sorted_unique [] ys differ hx hy p = Perm.nil-eq p
sorted_unique (x ∷ xs) [] differ hx hy p = Perm.eq-nil p
sorted_unique (x ∷ xs) (y ∷ ys) differ hx hy p =
    let mx : Mem x (y ∷ ys) = (Perm.mem_iff p).0 mem-cons_self in
    let my : Mem y (x ∷ xs) = (Perm.mem_iff p).1 mem-cons_self in
    let e : x ≡ y =
      differ x y mx mem-cons_self
        (ltb_ₛ_total x.id y.id (not_below_head x y ys hy mx) (not_below_head y x xs hx my)) in
    let q : Perm xs ys = (perm-cons y).0 (subst (λ z. Perm (z ∷ xs) (y ∷ ys)) e p) in
    ap₂ ◌∷◌ e (
      sorted_unique xs ys (λ a b ma mb. differ a b (mem-cons_of_mem y ma) (mem-cons_of_mem y mb))
        hx.1 hy.1 q)

values-has :
    (m : Map Transaction) (x : Transaction)
    → All IsOwn m
    → Mem x (values m)
    → has (keys m) x.id ≡ true
unfolding has
values-has [] x own h = absurd (not-mem-nil h)
values-has ((k, v) ∷ m) x own h =
    Or.elim (Bool-set _ _) (mem-cons.0 h)
      (λ e. ground (arith, IsOwn.key own.0, ap (λ (t : Transaction). t.id) e, ==ₛ_refl v.id))
      (λ r. ground (arith, values-has m x own.1 r))

-- The head's ID is not in the rest of the map.
head_alone :
    (k : Bytes) (v b : Transaction) (m : Map Transaction)
    → k ≡ v.id
    → has (keys m) k ≡ false
    → All IsOwn m
    → Mem b (values m)
    → b.id ≡ v.id
    → ⊥
head_alone k v b m own new rest mb e =
    let found : has (keys m) k ≡ true = rw (own ∙ sym e) (values-has m b rest mb) in
    false≢true (sym new ∙ found)

values-differ : (m : Map Transaction) → Distinct (keys m) → All IsOwn m → IdsDiffer (values m)
values-differ [] d own a b ma mb e = absurd (not-mem-nil ma)
values-differ ((k, v) ∷ m) d own a b ma mb e =
    Or.elim (Transaction-set a b) (mem-cons.0 ma)
      (λ ea.
        Or.elim (Transaction-set a b) (mem-cons.0 mb) (λ eb. ea ∙ sym eb)
          (λ rb. absurd (
            head_alone k v b m (IsOwn.key own.0) d.0 own.1 rb
              (sym e ∙ ap (λ (t : Transaction). t.id) ea))))
      (λ ra.
        Or.elim (Transaction-set a b) (mem-cons.0 mb)
          (λ eb. absurd (
            head_alone k v a m (IsOwn.key own.0) d.0 own.1 ra
              (e ∙ ap (λ (t : Transaction). t.id) eb)))
          (λ rb. values-differ m d.1 own.1 a b ra rb e))

-- In whatever order the map of a valid pool is read, and however it is sorted: a list with
-- exactly the pool's transactions that is sorted by ID is the result of `GetPending`.
pub get_pending_unique :
    (m : Mempool) (out : List Transaction)
    → IsValidPool m
    → Perm out (values m.transactions)
    → IsById out
    → out ≡ get_pending m
unfolding get_pending
get_pending_unique m out v p sorted =
    let sorted_perm = sort_by_id-perm (values m.transactions) in
    sorted_unique out (get_pending m)
      (λ a b ma mb.
        values-differ m.transactions v.distinct v.own a b ((Perm.mem_iff sorted_perm).0 ma)
          ((Perm.mem_iff sorted_perm).0 mb))
      sorted (sort_by_id-IsById (values m.transactions)) (Perm.trans p (Perm.symm sorted_perm))
