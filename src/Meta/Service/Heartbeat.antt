-- ===== src/Meta/Service/Heartbeat.antt =====
-- `checkInstanceStatus` and `registerToEtcd` of src/server/services/meta_service.h: how servers join,
-- and how each watches the next one. What they read in the tree is an argument.
use libvineyard.Base.{
  ℕ, suc, ◌+◌, ◌≤◌, ◌<◌, ◌≡◌, ◌≢◌, inl, inr, Bool, true, false, Option, none, some, List, [], ◌∷◌,
  ◌++◌, ◌==◌, ltb, leb, if◌then◌else◌, Text, codes, arith, Option-cases, All,
}
use libvineyard.Base.Multimap.{member, insert}
use libvineyard.Meta.Service.{Op, put_op, del_op}
use libvineyard.Meta.Paths.{to_string}

abbrev pub max_timeout_count : ℕ
max_timeout_count = 3

abbrev instance_key : ℕ → Text → Text
instance_key id field = codes "instances." ++ to_string id ++ codes "." ++ field

unfoldable pub insert_all : List ℕ → List ℕ → List ℕ
insert_all [] set = set
insert_all (x ∷ xs) set = insert_all xs (insert x set)

-- `registerToEtcd`: the rank that a server takes, the instances that it then knows, and its edits.
pub record Registration : Type 0 where
  pub rank : ℕ
  pub instances_list : List ℕ
  pub ops : List Op

unfoldable pub register : List ℕ → Option ℕ → ℕ → Text → ℕ → Registration
register instances next_instance_id self_host_id hostname timestamp =
    let rank : ℕ = elim next_instance_id [ none ↦ 0 | some id ↦ id ] in
    record {
      rank = rank;
      instances_list = insert rank (insert_all instances []);
      ops =
          put_op (instance_key rank (codes "hostid")) (to_string self_host_id) 0
          ∷ put_op (instance_key rank (codes "hostname")) hostname 0
          ∷ put_op (instance_key rank (codes "timestamp")) (to_string timestamp) 0
          ∷ put_op (codes "next_instance_id") (to_string (rank + 1)) 0
          ∷ [];
    }

-- `instances_list_.upper_bound(self)`
unfoldable pub upper_bound : ℕ → List ℕ → Option ℕ
upper_bound self [] = none
upper_bound self (x ∷ xs) = let rest = upper_bound self xs in if ltb self x then some x else rest

-- The instance that is watched: the next one, and the first one after the last. The list holds the
-- server itself, so that it is not empty.
unfoldable pub target_instance : ℕ → List ℕ → ℕ
target_instance self [] = self
target_instance self (x ∷ xs) = elim (upper_bound self (x ∷ xs)) [ none ↦ x | some y ↦ y ]

-- `target_latest_time_`, the pattern of an int64_t, and `timeout_count_`.
pub record Watch : Type 0 where
  pub target_latest_time : ℕ
  pub timeout_count : ℕ

abbrev pub new_watch : Watch
new_watch = record { target_latest_time = 0; timeout_count = 0 }

-- The watch after a look at the timestamp, and whether the instance has timed out.
unfoldable pub look : ℕ → Watch → Watch × Bool
look ts w =
    let count = if ts == w.target_latest_time then suc w.timeout_count else 0 in
    if leb max_timeout_count count
    then (new_watch, true)
    else (record { target_latest_time = ts; timeout_count = count }, false)

-- The edits for an instance that has timed out.
unfoldable pub leave_ops : ℕ → List Op
leave_ops target =
    del_op (instance_key target (codes "hostid")) 0
    ∷ del_op (instance_key target (codes "timestamp")) 0
    ∷ del_op (instance_key target (codes "hostname")) 0
    ∷ []

-- The second callback of `checkInstanceStatus`: the watch, and the edits to persist. Without a subtree
-- for the target there is no timestamp.
unfoldable pub check_instance : ℕ → List ℕ → (ℕ → Option ℕ) → Watch → Watch × List Op
check_instance self instances timestamp w =
    let target = target_instance self instances in
    if target == self then (w, []) else elim (timestamp target) [
      | none ↦ (w, [])
      | some ts ↦ let (v, timed_out) = look ts w in (v, if timed_out then leave_ops target else [])
    ]

unfoldable pub look_all : List ℕ → Watch → Watch × List Bool
look_all [] w = (w, [])
look_all (ts ∷ tss) w =
    let (v, out) = look ts w in let (u, outs) = look_all tss v in (u, out ∷ outs)

-- Whatever was seen before, an instance whose new timestamp stays the same times out at the fourth
-- look at it and not before, and one whose timestamp changes at every look does not.
pub look_lem :
    (w : Watch) (a b c d : ℕ)
    → a ≢ w.target_latest_time
    → b ≢ a
    → c ≢ b
    → d ≢ c
    → ((look_all (a ∷ a ∷ a ∷ a ∷ []) w).1 ≡ false ∷ false ∷ false ∷ true ∷ [])
      × ((look_all (a ∷ b ∷ c ∷ d ∷ []) w).1 ≡ false ∷ false ∷ false ∷ false ∷ [])
unfolding look_all look
look_lem w a b c d p q r s = ground arith

upper_bound-none :
    (self y : ℕ) (xs : List ℕ) → upper_bound self xs ≡ none → member y xs ≡ true → y ≤ self
unfolding upper_bound member
upper_bound-none self y [] e h = absurd (ground arith)
upper_bound-none self y (x ∷ xs) e h = ground (arith, upper_bound-none self y xs)

upper_bound-some :
    (self y : ℕ) (xs : List ℕ) → upper_bound self xs ≡ some y → (self < y) × (member y xs ≡ true)
unfolding upper_bound member
upper_bound-some self y [] e = absurd (ground arith)
upper_bound-some self y (x ∷ xs) e = ground (arith, upper_bound-some self y xs)

first_member : (x : ℕ) (xs : List ℕ) → member x (x ∷ xs) ≡ true
unfolding member
first_member x xs = ground arith

first_least : (x y : ℕ) (xs : List ℕ) → All (λ z. x ≤ z) xs → member y (x ∷ xs) ≡ true → x ≤ y
unfolding member
first_least x y [] least h = ground arith
first_least x y (z ∷ zs) least h = ground (arith, first_least x y zs least.1)

-- Of a set of instances, the one that a server watches is in the set, and it is another one than the
-- server itself as soon as there is another.
pub target_instance_lem :
    (self other x : ℕ) (xs : List ℕ)
    → All (λ y. x ≤ y) xs
    → member self (x ∷ xs) ≡ true
    → member other (x ∷ xs) ≡ true
    → other ≢ self
    → (target_instance self (x ∷ xs) ≢ self)
      × (member (target_instance self (x ∷ xs)) (x ∷ xs) ≡ true)
unfolding target_instance
target_instance_lem self other x xs least known there differs =
    elim (Option-cases (upper_bound self (x ∷ xs))) [
      | inr (y, e) ↦
          let (above, found) = upper_bound-some self y (x ∷ xs) e in
          rw (e, target_instance) ((λ k. absurd (omega arith)), found)
      | inl e ↦
          let a = upper_bound-none self other (x ∷ xs) e there in
          let b = first_least x other xs least there in
          let c = upper_bound-none self self (x ∷ xs) e known in
          rw (e, target_instance) ((λ k. differs (omega arith)), first_member x xs)
    ]
