-- ===== src/Instance/TaskScheduler/Tick/Groups.antt =====
-- The tasks by their bots.
use open_mcc_manager.Prelude.{
  ◌≡◌, ◌≢◌, refl, sym, ap, ◌∙◌, inl, inr, String, Bool, true, false, Bool-cases, List, [], ◌∷◌,
  ◌++◌, keep, str_eq, str_eq_iff, if◌then◌else◌, append-nil, append_assoc,
}
use mathlib.Core.Path.{subst}
use open_mcc_manager.Instance.TaskScheduler.{TaskParts}
use open_mcc_manager.Instance.TaskScheduler.Tick.{
  group_key, Groups, add_to_group, group_from, by_instance,
}

abbrev pub is_of : String → TaskParts → Bool
is_of key parts = str_eq (group_key parts) key

-- `grouped.get(key)`, nothing where there is no such key.
unfoldable pub group_of : String → Groups → List TaskParts
group_of key [] = []
group_of key ((other, found) ∷ groups) = if str_eq other key then found else group_of key groups

abbrev pub IsFree : String → Groups → Type 0
IsFree key [] = Unit {0}
IsFree key ((other, found) ∷ groups) = (str_eq other key ≡ false) × IsFree key groups

-- No key is there twice, and no group is empty.
abbrev pub IsGrouping : Groups → Type 0
IsGrouping [] = Unit {0}
IsGrouping ((key, found) ∷ groups) = (found ≢ []) × (IsFree key groups × IsGrouping groups)

str_eq_self : (s : String) → str_eq s s ≡ true
str_eq_self s = (str_eq_iff s s).1 refl

append_nothing : (xs : List TaskParts) → xs ≡ xs ++ []
append_nothing xs = sym (append-nil xs)

group_of-add :
    (key : String) (parts : TaskParts) (groups : Groups)
    → group_of key (add_to_group parts groups)
      ≡ group_of key groups ++ keep (is_of key) (parts ∷ [])
unfolding group_of add_to_group
group_of-add key parts [] = refl
group_of-add key parts ((other, found) ∷ groups) =
    elim (Bool-cases (str_eq other (group_key parts))) [
      | inl same ↦
          let e : other ≡ group_key parts = (str_eq_iff other (group_key parts)).0 same in
          rw same (
            subst
              (λ (k : String).
                group_of key ((other, found ++ parts ∷ []) ∷ groups)
                ≡ group_of key ((other, found) ∷ groups)
                  ++ (if str_eq k key then parts ∷ [] else []))
              e
              (elim (Bool-cases (str_eq other key)) [
                | inl here ↦ rw here refl
                | inr there ↦ rw there (append_nothing (group_of key groups))
              ]))
      | inr apart ↦ rw apart (elim (Bool-cases (str_eq other key)) [
        | inl here ↦ rw (here, not_of other here apart) (append_nothing found)
        | inr there ↦ rw there (group_of-add key parts groups)
      ])
    ]
  where
    not_of :
        (other : String)
        → str_eq other key ≡ true
        → str_eq other (group_key parts) ≡ false
        → str_eq (group_key parts) key ≡ false
    not_of other here apart = elim (Bool-cases (str_eq (group_key parts) key)) [
      | inr differ ↦ differ
      | inl equal ↦
          let e : other ≡ group_key parts =
            (str_eq_iff other key).0 here ∙ sym ((str_eq_iff (group_key parts) key).0 equal) in
          let f : str_eq other (group_key parts) ≡ true =
            (str_eq_iff other (group_key parts)).1 e in
          cc
    ]

group_of-from :
    (key : String) (tasks : List TaskParts) (groups : Groups)
    → group_of key (group_from tasks groups) ≡ group_of key groups ++ keep (is_of key) tasks
unfolding group_from
group_of-from key [] groups = append_nothing _
group_of-from key (parts ∷ tasks) groups =
    group_of-from key tasks (add_to_group parts groups)
    ∙ ap (λ (front : List TaskParts). front ++ keep (is_of key) tasks)
        (group_of-add key parts groups)
    ∙ append_assoc (group_of key groups) (keep (is_of key) (parts ∷ [])) (keep (is_of key) tasks)
    ∙ ap (λ (back : List TaskParts). group_of key groups ++ back)
        (elim (Bool-cases (is_of key parts)) [ inl kept ↦ rw kept refl | inr left ↦ rw left refl ])

IsFree-add :
    (key : String) (parts : TaskParts) (groups : Groups)
    → str_eq (group_key parts) key ≡ false
    → IsFree key groups
    → IsFree key (add_to_group parts groups)
unfolding add_to_group
IsFree-add key parts [] apart free = (apart, tt)
IsFree-add key parts ((other, found) ∷ groups) apart (here, rest) =
    elim (Bool-cases (str_eq other (group_key parts))) [
      | inl same ↦ rw same (here, rest)
      | inr differs ↦ rw differs (here, IsFree-add key parts groups apart rest)
    ]

IsGrouping-add :
    (parts : TaskParts) (groups : Groups)
    → IsGrouping groups
    → IsGrouping (add_to_group parts groups)
unfolding add_to_group
IsGrouping-add parts [] grouped = ((λ e. cc), (tt, tt))
IsGrouping-add parts ((other, found) ∷ groups) (filled, (free, rest)) =
    elim (Bool-cases (str_eq other (group_key parts))) [
      | inl same ↦ rw same (longer found, (free, rest))
      | inr differs ↦ rw differs (
        filled,
        (IsFree-add other parts groups (turned differs) free, IsGrouping-add parts groups rest),
      )
    ]
  where
    longer : (xs : List TaskParts) → (xs ++ parts ∷ []) ≢ []
    longer [] e = cc
    longer (x ∷ xs) e = cc

    turned : str_eq other (group_key parts) ≡ false → str_eq (group_key parts) other ≡ false
    turned differs = elim (Bool-cases (str_eq (group_key parts) other)) [
      | inr differ ↦ differ
      | inl equal ↦
          let f : str_eq other (group_key parts) ≡ true =
            (str_eq_iff other (group_key parts)).1
              (sym ((str_eq_iff (group_key parts) other).0 equal)) in
          cc
    ]

IsGrouping-from :
    (tasks : List TaskParts) (groups : Groups)
    → IsGrouping groups
    → IsGrouping (group_from tasks groups)
unfolding group_from
IsGrouping-from [] groups grouped = grouped
IsGrouping-from (parts ∷ tasks) groups grouped =
    IsGrouping-from tasks (add_to_group parts groups) (IsGrouping-add parts groups grouped)

-- The tasks of a tick are divided by their bots: no bot has two groups, no group is empty, and the
-- group of a bot has exactly the tasks of the bot, in the order in which they were read.
pub by_instance-IsGrouping :
    (tasks : List TaskParts)
    → IsGrouping (by_instance tasks)
      × ((key : String) → group_of key (by_instance tasks) ≡ keep (is_of key) tasks)
unfolding by_instance group_of
by_instance-IsGrouping tasks = (IsGrouping-from tasks [] tt, λ key. group_of-from key tasks [])
