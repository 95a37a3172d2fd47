-- ===== src/Nfs/Listing/Pages.antt =====
-- protocol/nfs/v3/readdir.rs and readdirplus.rs: which entries a page holds.
use fernfs.Prelude.{
  ℕ, suc, ◌+◌, ◌≤◌, ◌≡◌, refl, sym, ap, ◌∙◌, Bool, true, false, ◌&&◌, not, ◌⊎◌, inl, inr, List, [],
  ◌∷◌, ◌++◌, append-nil, append_assoc, Bool-cases, ◌==◌, length, length-append, take, All, arith,
}
use fernfs.Io.{Result, ok, Bytes}
use fernfs.Prelude.{saturating_add}
use fernfs.Nfs.Listing.{Page, write_entries}

never_small :
    (all any : Bool) (n : ℕ) → (not all && not true && n == 0) ≡ (not all && not any && suc n == 0)
never_small true any n = refl
never_small false true n = refl
never_small false false n = ground arith

end_small : (any : Bool) → not any ≡ (not false && not any && 0 == 0)
end_small true = refl
end_small false = refl

module _ {E : Type 0} (write_entry : ℕ → E → Result Bytes) (count_of : E → ℕ) (fits : ℕ → ℕ → Bool)
    (entry_bytes : ℕ → E → Bytes) where
  -- The entries one after the other, each with the index behind it as its cookie.
  abbrev pub entries_bytes : ℕ → List E → Bytes
  entries_bytes index [] = []
  entries_bytes index (e ∷ es) =
      entry_bytes (saturating_add index 1) e ++ entries_bytes (saturating_add index 1) es

  abbrev pub total : List E → ℕ
  total [] = 0
  total (e ∷ es) = count_of e + total es

  -- Whether the first `n` entries are within the limits.
  abbrev pub Fits : List E → ℕ → ℕ → Bytes → ℕ → Bool → Type 0
  Fits es index accumulated out n b =
      fits (length (out ++ entries_bytes index (take n es))) (accumulated + total (take n es)) ≡ b

  -- `page` is `out` and the first `count` entries, as many as fit, and says whether these are all.
  -- If none fits, it is too small, unless entries were written before.
  pub record IsPage (es : List E) (index accumulated : ℕ) (any : Bool) (out : Bytes) (page : Page)
      : Type 0 where
    pub count : ℕ
    pub holds : page.output ≡ out ++ entries_bytes index (take count es)
    pub fitting : (count ≡ 0) ⊎ Fits es index accumulated out count true
    pub complete :
        ((page.all_entries_written ≡ true) × (count ≡ length es))
        ⊎ ((page.all_entries_written ≡ false)
            × (suc count ≤ length es)
            × Fits es index accumulated out (suc count) false)
    pub small : page.too_small ≡ (not page.all_entries_written && not any && count == 0)

  module _ (e : E) (es : List E) (index accumulated : ℕ) (out : Bytes) where
    Fits-one :
        (b : Bool)
        → fits
            (length (entry_bytes (saturating_add index 1) e) + length out)
            (count_of e + accumulated)
          ≡ b
        → Fits (e ∷ es) index accumulated out 1 b
    Fits-one b h =
        let buf = entry_bytes (saturating_add index 1) e in
        let bytes : length (out ++ (buf ++ [])) ≡ length buf + length out =
          omega (arith, length-append out (buf ++ []), length-append buf []) in
        let sum : accumulated + (count_of e + 0) ≡ count_of e + accumulated = omega arith in
        rw (bytes, sum) h

    Fits-suc :
        (n : ℕ) (b : Bool)
        → Fits es
            (saturating_add index 1)
            (accumulated + count_of e)
            (out ++ entry_bytes (saturating_add index 1) e)
            n
            b
        → Fits (e ∷ es) index accumulated out (suc n) b
    Fits-suc n b h =
        let buf = entry_bytes (saturating_add index 1) e in
        let sum : accumulated + (count_of e + total (take n es))
            ≡ accumulated + count_of e + total (take n es) =
          omega arith in
        rw (sum, sym (append_assoc out buf (entries_bytes (saturating_add index 1) (take n es)))) h

  pub write_entries_lem :
      (es : List E) (index accumulated : ℕ) (any : Bool) (out : Bytes)
      → All (λ e. (cookie : ℕ) → write_entry cookie e ≡ ok (entry_bytes cookie e)) es
      → (page : Page) × (write_entries write_entry count_of fits es index accumulated any out
          ≡ ok page)
        × IsPage es index accumulated any out page
  unfolding write_entries
  write_entries_lem [] index accumulated any out h = (
    record { output = out; all_entries_written = true; too_small = false },
    refl,
    record {
      count = 0;
      holds = sym (append-nil out);
      fitting = inl refl;
      complete = inl (refl, refl);
      small = refl;
    },
  )
  write_entries_lem (e ∷ es) index accumulated any out (h, hs) =
      let cookie = saturating_add index 1 in
      let buf = entry_bytes cookie e in
      elim (Bool-cases (fits (length buf + length out) (count_of e + accumulated))) [
        | inl fit ↦
            let (page, run, r) =
              write_entries_lem es cookie (accumulated + count_of e) true (out ++ buf) hs in
            (
              page,
              rw (write_entries, h cookie, fit) run,
              record {
                count = suc r.count;
                holds = r.holds ∙ append_assoc out buf _;
                fitting = inr (elim r.fitting [
                  | inl z ↦ rw z (Fits-one e es index accumulated out true fit)
                  | inr q ↦ Fits-suc e es index accumulated out r.count true q
                ]);
                complete = elim r.complete [
                  | inl (a, n) ↦ inl (a, ap suc n)
                  | inr (a, n, q) ↦ inr (
                    a,
                    omega (arith, n),
                    Fits-suc e es index accumulated out (suc r.count) false q,
                  )
                ];
                small = r.small ∙ never_small page.all_entries_written any r.count;
              },
            )
        | inr full ↦ (
          record { output = out; all_entries_written = false; too_small = not any },
          rw (write_entries, h cookie, full) refl,
          record {
            count = 0;
            holds = sym (append-nil out);
            fitting = inl refl;
            complete = inr (refl, omega arith, Fits-one e es index accumulated out false full);
            small = end_small any;
          },
        )
      ]
