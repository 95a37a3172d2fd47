-- ===== src/Demo/Creating.antt =====
-- examples/demo_fs/fs.rs: what a name leads to after the creation of a file of that name.
use fernfs.Prelude.{
  ℕ, zero, suc, ◌<◌, ◌≡◌, refl, ap, ◌∙◌, Bool, true, false, Bool-cases, Option-cases, inl, inr,
  Option, none, some, List, [], ◌∷◌, ◌++◌, arith, ◌==◌, ==_iff, nat_eq, list_eq, equal_lists,
  equal_lists_iff, if◌then◌else◌, length, All,
}
use mathlib.Core.Path.{subst}
use fernfs.Io.{Bytes}
use fernfs.Xdr.Nfs3.{NfsResult, Fattr, Sattr}
use fernfs.Demo.Entry.{
  Contents, DemoEntry, DemoFs, get_at, modify_at, modify_entry_at, push_entry, push_cell,
  push_child, child_named, make_file, is_utf8,
}
use fernfs.Demo.Look.{lookup, lookup_among}
use fernfs.Demo.Change.{or_old}
use fernfs.Demo.Create.{create, created_as, push_file}
use fernfs.Demo.Sharing.{get_at-modify_at}
use fernfs.Demo.Sound.{Fits, IsSound}
use fernfs.Demo.Sound.Methods.{get_at_below, entry_Fits}

-- Whether an entry is there and has a name.
abbrev has_name : Bytes → Option DemoEntry → Bool
has_name name none = false
has_name name (some e) = equal_lists e.name name

child_named_step :
    (name : Bytes) (i : ℕ) (is : List ℕ) (s : DemoFs)
    → child_named name (i ∷ is) s
      ≡ (if has_name name (get_at s.entries i) then some i else child_named name is s)
unfolding child_named
child_named_step name i is s = elim (Option-cases (get_at s.entries i)) [
  | inl n ↦ rw (child_named, n) refl
  | inr (e, u) ↦ rw (child_named, u) refl
]

module _ {A : Type 0} where
  get_at-append : (xs ys : List A) (i : ℕ) → i < length xs → get_at (xs ++ ys) i ≡ get_at xs i
  unfolding get_at
  get_at-append [] ys i h = absurd (omega arith)
  get_at-append (x ∷ xs) ys zero h = refl
  get_at-append (x ∷ xs) ys (suc i) h = get_at-append xs ys i (omega arith)

  get_at-append_last : (xs : List A) (x : A) → get_at (xs ++ (x ∷ [])) (length xs) ≡ some x
  unfolding get_at
  get_at-append_last [] x = refl
  get_at-append_last (y ∷ xs) x = get_at-append_last xs x

has_name-push_child :
    (name : Bytes) (d n i : ℕ) (es : List DemoEntry)
    → has_name name (get_at (modify_at d (push_child n) es) i) ≡ has_name name (get_at es i)
unfolding get_at modify_at push_child
has_name-push_child name d n i [] = refl
has_name-push_child name zero n zero (e ∷ es) = refl
has_name-push_child name zero n (suc i) (e ∷ es) = refl
has_name-push_child name (suc d) n zero (e ∷ es) = refl
has_name-push_child name (suc d) n (suc i) (e ∷ es) = has_name-push_child name d n i es

-- Among the children and a new one of the name, the first of the name is the old one, if there was
-- one.
child_named_append :
    (name : Bytes) (n : ℕ) (is : List ℕ) (s s' : DemoFs)
    → ((i : ℕ) → i < n → has_name name (get_at s'.entries i) ≡ has_name name (get_at s.entries i))
    → has_name name (get_at s'.entries n) ≡ true
    → All (λ i. i < n) is
    → child_named name (is ++ (n ∷ [])) s' ≡ some (or_old (child_named name is s) n)
unfolding child_named
child_named_append name n [] s s' k new u = child_named_step name n [] s' ∙ rw new refl
child_named_append name n (i ∷ is) s s' k new (u, v) =
    child_named_step name i (is ++ (n ∷ [])) s'
    ∙ rw (k i u) (elim (Bool-cases (has_name name (get_at s.entries i))) [
      | inl t ↦ rw (child_named_step name i is s, t) refl
      | inr f ↦ rw (child_named_step name i is s, f) (child_named_append name n is s s' k new v)
    ])

lookup_child :
    (dirid : ℕ) (name : Bytes) (parent id : ℕ) (is : List ℕ) (s : DemoFs)
    → equal_lists name (46 ∷ []) ≡ false
    → equal_lists name (46 ∷ 46 ∷ []) ≡ false
    → child_named name is s ≡ some id
    → lookup_among dirid name parent (Contents.directory is) s ≡ some (NfsResult.ok id, s)
unfolding lookup_among
lookup_child dirid name parent id is s not_self not_parent found =
    rw (not_self, not_parent, found) refl

module _ (s : DemoFs) (c : IsSound s) (dirid : ℕ) (name : Bytes) (set : Sattr) (d : DemoEntry)
    (is : List ℕ) where
  -- The creation of a file in a directory of a sound state succeeds if the name is UTF-8, and answers
  -- the next identifier, whether or not the directory has the name already; but the name leads to the
  -- new file only if it was not there, and otherwise to what had it before. It is neither of the two
  -- names with dots.
  pub lookup-create :
      get_at s.entries dirid ≡ some d
      → d.contents ≡ Contents.directory is
      → is_utf8 [] name ≡ true
      → equal_lists name (46 ∷ []) ≡ false
      → equal_lists name (46 ∷ 46 ∷ []) ≡ false
      → (attr : Fattr) × (s' : DemoFs) × (create dirid name set s
          ≡ some (NfsResult.ok (length s.entries, attr), s'))
        × (lookup dirid name s'
            ≡ some (NfsResult.ok (or_old (child_named name is s) (length s.entries)), s'))
  unfolding create created_as push_file push_cell push_entry modify_entry_at lookup
  lookup-create here is_dir valid not_self not_parent =
      let n = length s.entries in
      let new = make_file name n dirid 0 (length s.cells) in
      let es = s.entries ++ (new ∷ []) in
      let s' : DemoFs = record {
        entries = modify_at dirid (push_child n) es;
        cells = s.cells ++ ([] ∷ []);
      } in
      let low = get_at_below s.entries dirid d here in
      let dir : get_at es dirid ≡ some d = get_at-append s.entries (new ∷ []) dirid low ∙ here in
      let other : (dirid == n) ≡ false = ground (arith, ==_iff dirid n) in
      let self : (dirid == dirid) ≡ true = ground (arith, ==_iff dirid dirid) in
      let made : get_at s'.entries n ≡ some new =
        get_at-modify_at dirid n (push_child n) es d dir
        ∙ rw other (get_at-append_last s.entries new) in
      let grown : get_at s'.entries dirid ≡ some (push_child n d) =
        get_at-modify_at dirid dirid (push_child n) es d dir ∙ rw self refl in
      let listed : (push_child n d).contents ≡ Contents.directory (is ++ (n ∷ [])) =
        unfold push_child in rw is_dir refl in
      let named : has_name name (get_at s'.entries n) ≡ true =
        rw made (unfold make_file in (equal_lists_iff name name).1 refl) in
      let kept : (i : ℕ)
          → i < n
          → has_name name (get_at s'.entries i) ≡ has_name name (get_at s.entries i) =
        λ i h.
          has_name-push_child name dirid n i es
          ∙ ap (has_name name) (get_at-append s.entries (new ∷ []) i h) in
      let below = subst (λ x. Fits n (length s.cells) x) is_dir (entry_Fits s c dirid d here) in
      let found = child_named_append name n is s s' kept named below in
      (
        new.attr,
        s',
        rw (create, valid, dir, created_as, made) refl,
        rw (lookup, grown, listed) (lookup_child dirid name _ _ _ s' not_self not_parent found),
      )
