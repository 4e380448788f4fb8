-- ===== src/Json/Fields/First.antt =====
-- `getField` and `setField` of frontend/src/pages/acls/model.ts reach the first field with the name.
use head_control.Json.Fields.{
  put_member, drop_member, key_or, member_at, write_member, get_member, member_keys, field_name,
  get_field, same_name,
}
use head_control.Common.{
  Bool, true, false, List, [], ◌∷◌, ◌≡◌, refl, arith, map, if◌then◌else◌, Option, none, some, find,
  Bool-cases, inl, inr, sym, ap, ◌∙◌,
}
use head_control.Text.{Text, text_eq, lower}
use head_control.Text.Equal.{text_eq_iff, text_eq_refl}
use head_control.Json.{Json, Members, end, member}

-- The first field with the name, and the members with that field replaced, added or removed.
unfoldable pub field : Text → Members → Option Json
unfolding same_name
field n end = none
field n (member k v m) = let rest = field n m in if same_name k n then some v else rest

unfoldable pub write_first : Text → Option Json → Members → Members
write_first n none end = end
write_first n (some v) end = member n v end
write_first n none (member k w m) =
    let rest = write_first n none m in if same_name k n then m else member k w rest
write_first n (some v) (member k w m) =
    let rest = write_first n (some v) m in if same_name k n then member k v m else member k w rest

same_name_refl : (n : Text) → same_name n n ≡ true
unfolding same_name
same_name_refl n = text_eq_refl (map lower n)

find_holds {ℓ} : {A : Type ℓ} (f : A → Bool) (xs : List A) (a : A) → find f xs ≡ some a → f a ≡ true
unfolding find
find_holds f [] a h = absurd (ground arith)
find_holds f (x ∷ xs) a h = elim (Bool-cases (f x)) [
  | inl e ↦ ground arith
  | inr e ↦ find_holds f xs a (ground arith)
]

field_name-same_name : (o : Members) (n k : Text) → field_name o n ≡ some k → same_name k n ≡ true
unfolding field_name
field_name-same_name o n k h = find_holds (λ k. same_name k n) (member_keys o) k h

-- Another spelling is another key.
other_key : (k j n : Text) → same_name k n ≡ false → same_name j n ≡ true → text_eq k j ≡ false
other_key k j n h e = ground (arith, text_eq_iff k j, ap (λ x. same_name x n))

field_name_of_same :
    (k n : Text) (v : Json) (m : Members)
    → same_name k n ≡ true
    → field_name (member k v m) n ≡ some k
unfolding field_name find
field_name_of_same k n v m e = rw e refl

field_name_of_other :
    (k n : Text) (v : Json) (m : Members)
    → same_name k n ≡ false
    → field_name (member k v m) n ≡ field_name m n
unfolding field_name find
field_name_of_other k n v m e = rw e refl

get_member_of_other :
    (k j : Text) (v : Json) (m : Members)
    → text_eq k j ≡ false
    → get_member j (member k v m) ≡ get_member j m
unfolding get_member
get_member_of_other k j v m e = rw e refl

get_member_of_same : (k : Text) (v : Json) (m : Members) → get_member k (member k v m) ≡ some v
unfolding get_member
get_member_of_same k v m = rw (text_eq_refl k) refl

member_at_of_other :
    (k n : Text) (v : Json) (m : Members) (o : Option Text)
    → field_name m n ≡ o
    → same_name k n ≡ false
    → member_at (member k v m) o ≡ member_at m o
member_at_of_other k n v m none h e = refl
member_at_of_other k n v m (some j) h e =
    get_member_of_other k j v m (other_key k j n e (field_name-same_name m n j h))

pub get_field-field : (o : Members) (n : Text) → get_field o n ≡ field n o
unfolding get_field field
get_field-field end n = unfold field_name find in refl
get_field-field (member k v m) n = elim (Bool-cases (same_name k n)) [
  | inl e ↦
      ap (member_at (member k v m)) (field_name_of_same k n v m e)
      ∙ (get_member_of_same k v m ∙ rw e refl)
  | inr e ↦
      ap (member_at (member k v m)) (field_name_of_other k n v m e)
      ∙ (member_at_of_other k n v m (field_name m n) refl e ∙ (get_field-field m n ∙ rw e refl))
]

-- Writing under the key that was found is writing the first field with the name.
write_of_same :
    (k : Text) (v : Option Json) (w : Json) (m : Members)
    → write_member k v (member k w m) ≡ (elim v [ none ↦ m | some x ↦ member k x m ])
write_of_same k none w m = unfold drop_member in rw (text_eq_refl k) refl
write_of_same k (some x) w m = unfold put_member in rw (text_eq_refl k) refl

write_of_other :
    (k j : Text) (v : Option Json) (w : Json) (m : Members)
    → text_eq k j ≡ false
    → write_member j v (member k w m) ≡ member k w (write_member j v m)
write_of_other k j none w m e = unfold drop_member in rw e refl
write_of_other k j (some x) w m e = unfold put_member in rw e refl

pub write_first_of_same :
    (n k : Text) (v : Option Json) (w : Json) (m : Members)
    → same_name k n ≡ true
    → write_first n v (member k w m) ≡ (elim v [ none ↦ m | some x ↦ member k x m ])
unfolding write_first
write_first_of_same n k none w m e = rw e refl
write_first_of_same n k (some x) w m e = rw e refl

pub write_first_of_other :
    (n k : Text) (v : Option Json) (w : Json) (m : Members)
    → same_name k n ≡ false
    → write_first n v (member k w m) ≡ member k w (write_first n v m)
unfolding write_first
write_first_of_other n k none w m e = rw e refl
write_first_of_other n k (some x) w m e = rw e refl

key_or-same_name :
    (m : Members) (n : Text) (o : Option Text)
    → field_name m n ≡ o
    → same_name (key_or n o) n ≡ true
key_or-same_name m n none h = same_name_refl n
key_or-same_name m n (some j) h = field_name-same_name m n j h

pub write_member-write_first :
    (n : Text) (v : Option Json) (o : Members)
    → write_member (key_or n (field_name o n)) v o ≡ write_first n v o
write_member-write_first n none end = unfold drop_member write_first field_name find in refl
write_member-write_first n (some x) end = unfold put_member write_first field_name find in refl
write_member-write_first n v (member k w m) = elim (Bool-cases (same_name k n)) [
  | inl e ↦
      ap (λ j. write_member (key_or n j) v (member k w m)) (field_name_of_same k n w m e)
      ∙ (write_of_same k v w m ∙ sym (write_first_of_same n k v w m e))
  | inr e ↦
      ap (λ j. write_member (key_or n j) v (member k w m)) (field_name_of_other k n w m e)
      ∙ (write_of_other k (key_or n (field_name m n)) v w m (
            other_key k (key_or n (field_name m n)) n e
              (key_or-same_name m n (field_name m n) refl))
          ∙ (ap (member k w) (write_member-write_first n v m)
              ∙ sym (write_first_of_other n k v w m e)))
]
