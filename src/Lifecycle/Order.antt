-- ===== src/Lifecycle/Order.antt =====
-- The registered components, their names and their order.
use authentication_v.Base.{
  ℕ, ◌≤◌, ◌≡◌, refl, false, String, str_eq, eq_iff, List, [], ◌∷◌, arith, leb, push, All, ◌||◌,
  Bool-cases, ◌∙◌, inl, inr,
}
use authentication_v.Lifecycle.Coordinator.{
  Component, Coordinator, new, register, unregister, insert_by_priority, sort_by_priority, is_named,
  remove_named,
}

abbrev pub IsDescending : List Component → Type 0
IsDescending [] = Unit
IsDescending (c ∷ cs) = All (λ d. d.priority ≤ c.priority) cs × IsDescending cs

abbrev pub HasUniqueNames : List Component → Type 0
HasUniqueNames [] = Unit
HasUniqueNames (c ∷ cs) = (is_named c.name cs ≡ false) × HasUniqueNames cs

pub record IsOrdered (c : Coordinator) : Type 0 where
  pub descending : IsDescending c.components
  pub unique : HasUniqueNames c.components

All-insert :
    (n : ℕ) (c : Component) (cs : List Component)
    → c.priority ≤ n
    → All (λ d. d.priority ≤ n) cs
    → All (λ d. d.priority ≤ n) (insert_by_priority c cs)
unfolding insert_by_priority
All-insert n c [] h a = (h, tt)
All-insert n c (d ∷ ds) h a = ground (arith, All-insert n c ds)

All-le :
    (m n : ℕ) (cs : List Component)
    → m ≤ n
    → All (λ d. d.priority ≤ m) cs
    → All (λ d. d.priority ≤ n) cs
All-le m n [] h a = tt
All-le m n (c ∷ cs) h a = (omega arith, All-le m n cs h a.1)

insert-IsDescending :
    (c : Component) (cs : List Component) → IsDescending cs → IsDescending (insert_by_priority c cs)
unfolding insert_by_priority
insert-IsDescending c [] h = (tt, tt)
insert-IsDescending c (d ∷ ds) h = elim (Bool-cases (leb d.priority c.priority)) [
  | inl above ↦
      rw above ((ground arith, All-le d.priority c.priority ds (ground arith) h.0), (h.0, h.1))
  | inr below ↦
      rw below (All-insert d.priority c ds (ground arith) h.0, insert-IsDescending c ds h.1)
]

sort-IsDescending : (cs : List Component) → IsDescending (sort_by_priority cs)
unfolding sort_by_priority
sort-IsDescending [] = tt
sort-IsDescending (c ∷ cs) = insert-IsDescending c (sort_by_priority cs) (sort-IsDescending cs)

is_named-insert :
    (name : String) (c : Component) (cs : List Component)
    → is_named name (insert_by_priority c cs) ≡ (str_eq c.name name || is_named name cs)
unfolding insert_by_priority is_named
is_named-insert name c [] = refl
is_named-insert name c (d ∷ ds) = ground (arith, is_named-insert name c ds)

is_named-sort :
    (name : String) (cs : List Component) → is_named name (sort_by_priority cs) ≡ is_named name cs
unfolding sort_by_priority is_named
is_named-sort name [] = refl
is_named-sort name (c ∷ cs) =
    ground (arith, is_named-insert name c (sort_by_priority cs), is_named-sort name cs)

insert-HasUniqueNames :
    (c : Component) (cs : List Component)
    → is_named c.name cs ≡ false
    → HasUniqueNames cs
    → HasUniqueNames (insert_by_priority c cs)
unfolding insert_by_priority is_named
insert-HasUniqueNames c [] h u = (refl, tt)
insert-HasUniqueNames c (d ∷ ds) h u = ground (
  arith,
  is_named-insert d.name c ds,
  eq_iff c.name d.name,
  eq_iff d.name c.name,
  insert-HasUniqueNames c ds,
)

sort-HasUniqueNames :
    (cs : List Component) → HasUniqueNames cs → HasUniqueNames (sort_by_priority cs)
unfolding sort_by_priority
sort-HasUniqueNames [] u = tt
sort-HasUniqueNames (c ∷ cs) u =
    insert-HasUniqueNames c (sort_by_priority cs) (rw is_named-sort u.0)
      (sort-HasUniqueNames cs u.1)

is_named-push :
    (name : String) (c : Component) (cs : List Component)
    → is_named name (push cs c) ≡ (str_eq c.name name || is_named name cs)
unfolding is_named
is_named-push name c [] = refl
is_named-push name c (d ∷ ds) = ground (arith, is_named-push name c ds)

push-HasUniqueNames :
    (c : Component) (cs : List Component)
    → is_named c.name cs ≡ false
    → HasUniqueNames cs
    → HasUniqueNames (push cs c)
unfolding is_named
push-HasUniqueNames c [] h u = (refl, tt)
push-HasUniqueNames c (d ∷ ds) h u = ground (
  arith,
  is_named-push d.name c ds,
  eq_iff c.name d.name,
  eq_iff d.name c.name,
  push-HasUniqueNames c ds,
)

register-IsOrdered : (d : Component) (c : Coordinator) → IsOrdered c → IsOrdered (register d c)
unfolding register
register-IsOrdered d c h = elim (Bool-cases (is_named d.name c.components)) [
  | inl known ↦ rw (known, register) h
  | inr fresh ↦
      rw (fresh, register)
        (record {
          descending = sort-IsDescending (push c.components d);
          unique =
              sort-HasUniqueNames (push c.components d)
                (push-HasUniqueNames d c.components fresh h.unique);
        })
]

All-remove :
    (n : ℕ) (name : String) (cs : List Component)
    → All (λ d. d.priority ≤ n) cs
    → All (λ d. d.priority ≤ n) (remove_named name cs)
unfolding remove_named
All-remove n name [] a = tt
All-remove n name (c ∷ cs) a = ground (arith, All-remove n name cs)

remove-IsDescending :
    (name : String) (cs : List Component) → IsDescending cs → IsDescending (remove_named name cs)
unfolding remove_named
remove-IsDescending name [] h = tt
remove-IsDescending name (c ∷ cs) h =
    ground (arith, All-remove c.priority name cs, remove-IsDescending name cs)

is_named-remove :
    (other name : String) (cs : List Component)
    → is_named other cs ≡ false
    → is_named other (remove_named name cs) ≡ false
unfolding remove_named is_named
is_named-remove other name [] h = refl
is_named-remove other name (c ∷ cs) h = ground (arith, is_named-remove other name cs)

remove-HasUniqueNames :
    (name : String) (cs : List Component)
    → HasUniqueNames cs
    → HasUniqueNames (remove_named name cs)
unfolding remove_named
remove-HasUniqueNames name [] u = tt
remove-HasUniqueNames name (c ∷ cs) u =
    ground (arith, is_named-remove c.name name cs, remove-HasUniqueNames name cs)

unregister-IsOrdered :
    (name : String) (c : Coordinator) → IsOrdered c → IsOrdered (unregister name c).0
unfolding unregister
unregister-IsOrdered name c h = elim (Bool-cases (is_named name c.components)) [
  | inl known ↦
      rw (known, unregister)
        (record {
          descending = remove-IsDescending name c.components h.descending;
          unique = remove-HasUniqueNames name c.components h.unique;
        })
  | inr fresh ↦ rw (fresh, unregister) h
]

-- What the modules of the service ask of the coordinator before a shutdown.
pub data Request : Type 0 where
  add : Component → Request
  remove : String → Request

unfoldable pub serve : List Request → Coordinator → Coordinator
serve [] c = c
serve (add d ∷ rs) c = serve rs (register d c)
serve (remove name ∷ rs) c = serve rs (unregister name c).0

serve_from-IsOrdered : (rs : List Request) (c : Coordinator) → IsOrdered c → IsOrdered (serve rs c)
unfolding serve
serve_from-IsOrdered [] c h = h
serve_from-IsOrdered (add d ∷ rs) c h =
    serve_from-IsOrdered rs (register d c) (register-IsOrdered d c h)
serve_from-IsOrdered (remove name ∷ rs) c h =
    serve_from-IsOrdered rs (unregister name c).0 (unregister-IsOrdered name c h)

-- Whatever components are registered and unregistered, in whatever order, the coordinator holds no
-- name twice and lists its components from the highest priority to the lowest.
pub serve-IsOrdered : (rs : List Request) → IsOrdered (serve rs new)
serve-IsOrdered rs =
    serve_from-IsOrdered rs new (unfold new in record { descending = tt; unique = tt })

-- After a registration a name is present exactly if it was before or is the new component's.
pub is_named-register :
    (name : String) (d : Component) (c : Coordinator)
    → is_named name (register d c).components ≡ (str_eq d.name name || is_named name c.components)
unfolding register
is_named-register name d c = elim (Bool-cases (is_named d.name c.components)) [
  | inl known ↦ elim (Bool-cases (str_eq d.name name)) [
    | inl same ↦ rw (known, register, same) (rw ((eq_iff d.name name).0 same) at known)
    | inr other ↦ rw (known, register, other)
  ]
  | inr fresh ↦
      rw (fresh, register)
        (is_named-sort name (push c.components d) ∙ is_named-push name d c.components)
]
