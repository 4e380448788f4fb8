-- ===== src/Acl/Page/Shown/Agree.antt =====
-- The three accounts of the unsaved changes.
use head_control.Common.{
  ap₂, ℕ, ◌+◌, Bool, true, false, ◌||◌, List, [], ◌∷◌, ◌++◌, ◌≡◌, refl, sym, ap, ◌∙◌, arith, map,
  length, any, ltb, if◌then◌else◌, Option, none, some,
}
use head_control.Text.{Text}
use head_control.Acl.Draft.{Draft, ExtraList, PolicyModel}
use head_control.Acl.Diff.{
  KeyChanges, ListChanges, RuleChanges, ChangeSummary, list_change_count, diff_draft, empty_summary,
}
use head_control.Acl.Page.{is_dirty, summary_of}
use head_control.Acl.Page.Shown.{
  Tab, rules, groups, tag_owners, hosts, Line, key_count, rule_count, approver_count, tab_dirty,
  part_if, section_of, summary_parts, summary_sections, rule_lines, key_lines, list_lines,
  approver_lines,
}

abbrev one_if : Bool → ℕ
one_if b = if b then 1 else 0

-- The number of changes, read off the parts of a summary.
abbrev total : ChangeSummary → ℕ
total s =
    rule_count s.rules
    + (key_count s.groups
        + (key_count s.tag_owners
            + (key_count s.hosts
                + (list_change_count s.extras.grants
                    + (list_change_count s.extras.ssh
                        + (list_change_count s.extras.node_attrs
                            + (list_change_count s.extras.tests
                                + (list_change_count s.extras.ssh_tests
                                    + (key_count s.routes
                                        + (one_if s.exit_node_changed
                                            + one_if s.randomize_changed))))))))))

count-diff_draft : (m : PolicyModel) (d : Draft) → (diff_draft m d).count ≡ total (diff_draft m d)
unfolding diff_draft key_count
count-diff_draft m d = omega arith

count_from :
    (d : Draft) (o : Option PolicyModel)
    → let s : ChangeSummary = elim o [ none ↦ empty_summary | some base ↦ diff_draft base d ] in
      s.count ≡ total s
unfolding key_count list_change_count
count_from d none = refl
count_from d (some m) = count-diff_draft m d

count-summary_of : (d : Draft) → (summary_of d).count ≡ total (summary_of d)
unfolding summary_of key_count
count-summary_of d = count_from d d.base

abbrev pub is_filled {ℓ} : {A : Type ℓ} → List A → Bool
is_filled [] = false
is_filled (x ∷ xs) = true

module _ {ℓ} {A : Type ℓ} where
  filled-append : (xs ys : List A) → is_filled (xs ++ ys) ≡ (is_filled xs || is_filled ys)
  filled-append [] ys = refl
  filled-append (x ∷ xs) ys = refl

  filled-part_if : (n : ℕ) (x : A) → is_filled (part_if n x) ≡ ltb 0 n
  filled-part_if n x = ground arith

  filled-if : (b : Bool) (x : A) → is_filled (if b then x ∷ [] else []) ≡ ltb 0 (one_if b)
  filled-if true x = refl
  filled-if false x = refl

  filled-map {κ} : {B : Type κ} (f : A → B) (xs : List A) → is_filled (map f xs) ≡ ltb 0 (length xs)
  filled-map f [] = refl
  filled-map f (x ∷ xs) = ground arith

filled-section_of : (t : Text) (xs : List Line) → is_filled (section_of t xs) ≡ is_filled xs
filled-section_of t [] = refl
filled-section_of t (x ∷ xs) = refl

or-ltb : (a b : ℕ) → (ltb 0 a || ltb 0 b) ≡ ltb 0 (a + b)
or-ltb a b = ground arith

bool-ltb : (b : Bool) → b ≡ ltb 0 (one_if b)
bool-ltb true = refl
bool-ltb false = refl

ltb_eq : {a b : ℕ} → a ≡ b → ltb 0 a ≡ ltb 0 b
ltb_eq h = ap (ltb 0) h

filled-key_lines : (p : Text) (k : KeyChanges) → is_filled (key_lines p k) ≡ ltb 0 (key_count k)
unfolding key_lines key_count
filled-key_lines p k = simp (filled-append, filled-map, or-ltb) (ap (ltb 0) (omega arith))

filled-rule_lines : (r : RuleChanges) → is_filled (rule_lines r) ≡ ltb 0 (rule_count r)
unfolding rule_lines
filled-rule_lines r = simp (filled-append, filled-map, or-ltb) (ap (ltb 0) (omega arith))

filled-list_lines :
    (l : ExtraList) (c : ListChanges) → is_filled (list_lines l c) ≡ ltb 0 (list_change_count c)
unfolding list_lines list_change_count
filled-list_lines l c = simp (filled-append, filled-part_if, or-ltb) (ap (ltb 0) (omega arith))

filled-approver_lines :
    (s : ChangeSummary) → is_filled (approver_lines s) ≡ ltb 0 (approver_count s)
unfolding approver_lines
filled-approver_lines s = simp (filled-append, filled-key_lines, filled-if, or-ltb)

filled-summary_parts : (s : ChangeSummary) → is_filled (summary_parts s) ≡ ltb 0 (total s)
unfolding summary_parts
filled-summary_parts s =
    simp (filled-append, filled-part_if, filled-if, or-ltb) (ap (ltb 0) (omega arith))

filled-summary_sections : (s : ChangeSummary) → is_filled (summary_sections s) ≡ ltb 0 (total s)
unfolding summary_sections
filled-summary_sections s =
    simp
      (
        filled-append, filled-section_of, filled-rule_lines, filled-key_lines, filled-list_lines,
        filled-approver_lines, filled-if, or-ltb,
      )
      (ltb_eq (omega arith))

abbrev pub tabs : List Tab
tabs = rules ∷ groups ∷ tag_owners ∷ hosts ∷ []

or_false : (b : Bool) → (b || false) ≡ b
or_false true = refl
or_false false = refl

five_lists :
    (a b c d e : ℕ)
    → (ltb 0 a || (ltb 0 b || (ltb 0 c || (ltb 0 d || (ltb 0 e || false)))))
      ≡ ltb 0 (a + (b + (c + (d + e))))
five_lists a b c d e = simp (or-ltb, or_false)

two_flags : (a b : Bool) → (a || b) ≡ ltb 0 (one_if a + one_if b)
two_flags true b = ground arith
two_flags false true = refl
two_flags false false = refl

-- The dots of the tabs, from the number of rules, the flags of the lists and the two options, and
-- the numbers of approved routes, groups, owners and hosts.
abbrev dots : ℕ → Bool → Bool → ℕ → ℕ → ℕ → ℕ → Bool
dots r extras options routes g o h =
    (ltb 0 r || (extras || (ltb 0 routes || options)))
    || (ltb 0 g || (ltb 0 o || (ltb 0 h || false)))

dots_sum :
    (r x y routes g o h : ℕ)
    → dots r (ltb 0 x) (ltb 0 y) routes g o h ≡ ltb 0 ((r + (x + (routes + y))) + (g + (o + h)))
dots_sum r x y routes g o h = simp (or-ltb, or_false)

any-tab_dirty : (s : ChangeSummary) → any (tab_dirty s) tabs ≡ ltb 0 (total s)
unfolding any tab_dirty
any-tab_dirty s =
    let e = s.extras in
    let list = λ (l : ListChanges). list_change_count l in
    let sum =
      list e.grants + (list e.ssh + (list e.node_attrs + (list e.tests + list e.ssh_tests))) in
    ap₂
      (λ x y.
        dots (rule_count s.rules) x y (key_count s.routes) (key_count s.groups)
          (key_count s.tag_owners) (key_count s.hosts))
      (five_lists (list e.grants) (list e.ssh) (list e.node_attrs) (list e.tests)
        (list e.ssh_tests))
      (two_flags s.exit_node_changed s.randomize_changed)
    ∙ dots_sum (rule_count s.rules) sum (one_if s.exit_node_changed + one_if s.randomize_changed)
        (key_count s.routes) (key_count s.groups) (key_count s.tag_owners) (key_count s.hosts)
    ∙ ltb_eq (omega arith)

-- The page counts unsaved changes exactly where some tab has a dot, where the line beside the
-- button of the save says something, and where the review lists something.
pub is_dirty-shown :
    (d : Draft)
    → (is_dirty d ≡ any (tab_dirty (summary_of d)) tabs)
      × (is_dirty d ≡ is_filled (summary_parts (summary_of d)))
      × (is_dirty d ≡ is_filled (summary_sections (summary_of d)))
unfolding is_dirty
is_dirty-shown d =
    let s = summary_of d in
    let dirty = ltb_eq (count-summary_of d) in
    (
      dirty ∙ sym (any-tab_dirty s),
      dirty ∙ sym (filled-summary_parts s),
      dirty ∙ sym (filled-summary_sections s),
    )
