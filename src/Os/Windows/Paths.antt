-- ===== src/Os/Windows/Paths.antt =====
-- What a path that passes `private` is on Windows.
use zapd.Prelude.{
  ◌≡◌, ◌↔◌, inl, inr, refl, sym, ap, ◌∙◌, subst, Bool, true, false, not, ◌||◌, List, if◌then◌else◌,
  Bool-cases,
}
use zapd.Text.{Str}
use zapd.Text.Split.{contains}
use zapd.Io.{Result, ok, err}
use zapd.Os.{FileType, is_dir, is_file}
use zapd.Os.Windows.{owned, is_symlink, private}

owned_iff :
    (mine : Result (List Str)) (owner : Result Str)
    → (owned mine owner ≡ ok tt) ↔ (
        (sids : List Str) × (sid : Str) × (mine ≡ ok sids)
        × (owner ≡ ok sid)
        × (contains sids sid ≡ true))
unfolding owned
owned_iff (err e) owner = (λ h. absurd (cc), λ (sids, sid, a, b, c). absurd (cc))
owned_iff (ok sids) (err e) = (λ h. absurd (cc), λ (sids, sid, a, b, c). absurd (cc))
owned_iff (ok sids) (ok sid) = (
  λ h. elim (Bool-cases (contains sids sid)) [
    | inl t ↦ (sids, sid, refl, refl, t)
    | inr f ↦ let h' = rw (f, owned) at h in absurd (cc)
  ],
  λ (l, i, a, b, c).
      let p : sids ≡ l = cc in
      let q : sid ≡ i = cc in
      let t : contains sids sid ≡ true = ap (λ l. contains l sid) p ∙ ap (contains l) q ∙ c in
      rw (t, owned) refl,
)

kind_links :
    (dir : Bool) (t : FileType)
    → (not (if dir then is_dir t else is_file t) || is_symlink t)
      ≡ not (if dir then is_dir t else is_file t)
unfolding is_dir is_file is_symlink
kind_links true FileType.directory = refl
kind_links true FileType.regular = refl
kind_links true FileType.symlink = refl
kind_links true FileType.special = refl
kind_links false FileType.directory = refl
kind_links false FileType.regular = refl
kind_links false FileType.symlink = refl
kind_links false FileType.special = refl

-- A path passes exactly if it is a directory, or a file, as asked, and its owner is one that this
-- process gives its own files: a link, which is neither, never passes.
pub private_owned_iff :
    (dir : Bool) (stat : Result FileType) (mine : Result (List Str)) (owner : Result Str)
    → (private dir stat mine owner ≡ ok tt) ↔ (
        (t : FileType) × (stat ≡ ok t)
        × ((if dir then is_dir t else is_file t) ≡ true)
        × ((sids : List Str) × (sid : Str) × (mine ≡ ok sids)
            × (owner ≡ ok sid)
            × (contains sids sid ≡ true)))
unfolding private
private_owned_iff dir (err e) mine owner = (λ h. absurd (cc), λ (t, q, k, r). absurd (cc))
private_owned_iff dir (ok t) mine owner = (
  λ h. elim (Bool-cases (if dir then is_dir t else is_file t)) [
    | inl k ↦ (t, refl, k, (owned_iff mine owner).0 (rw (kind_links dir t, private, k) at h))
    | inr k ↦ let h' = rw (kind_links dir t, private, k) at h in absurd (cc)
  ],
  λ (u, q, k, r).
      let same : t ≡ u = cc in
      let k' : (if dir then is_dir t else is_file t) ≡ true =
        subst (λ t. (if dir then is_dir t else is_file t) ≡ true) (sym same) k in
      rw (kind_links dir t, private, k') ((owned_iff mine owner).1 r),
)
