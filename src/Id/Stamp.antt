-- ===== src/Id/Stamp.antt =====
-- `stamp` and `kind` against a description of ids that does not split text.
use zapd.Prelude.{
  ℕ, ◌≤◌, ◌<◌, ◌≡◌, ◌≢◌, ◌↔◌, ◌⊎◌, inl, inr, refl, ap, subst, ◌∙◌, true, some, List, [], ◌∷◌, ◌++◌,
  arith, length, All,
}
use zapd.Text.{Str}
use zapd.Text.Split.{
  split, contains, Lacks, split-eq_single, split_sep, join, join-split, split-Lacks, contains-All,
}
use zapd.Id.{kinds, slash, all_label, name_ok, full_id, stamp_parts, stamp_split, stamp, kind}

-- `[a-z0-9-]`
abbrev pub LabelChar : ℕ → Type 0
LabelChar c = ((b'a' ≤ c) × (c ≤ b'z')) ⊎ ((b'0' ≤ c) × (c ≤ b'9')) ⊎ (c ≡ b'-')

-- `[a-z0-9]`
abbrev pub Leads : Str → Type 0
Leads [] = ⊥
Leads (c ∷ cs) = ((b'a' ≤ c) × (c ≤ b'z')) ⊎ ((b'0' ≤ c) × (c ≤ b'9'))

-- `[a-z0-9][a-z0-9-]{0,15}`
pub record IsName (n : Str) : Type 0 where
  pub leads : Leads n
  pub chars : All LabelChar n
  pub short : length n ≤ 16

all_label-All : (n : Str) → all_label n ≡ true → All LabelChar n
unfolding all_label
all_label-All [] h = tt
all_label-All (c ∷ cs) h = (ground arith, all_label-All cs (ground arith))

All-all_label : (n : Str) → All LabelChar n → all_label n ≡ true
unfolding all_label
All-all_label [] h = refl
All-all_label (c ∷ cs) (p, h) = ground (arith, All-all_label cs h)

pub name_ok-IsName : (n : Str) → name_ok n ≡ true → IsName n
unfolding name_ok
name_ok-IsName [] h = absurd (ground arith)
name_ok-IsName (c ∷ cs) h = record {
  leads = ground arith;
  chars = all_label-All (c ∷ cs) (ground arith);
  short = ground arith;
}

pub IsName-name_ok : (n : Str) → IsName n → name_ok n ≡ true
unfolding name_ok
IsName-name_ok [] h = absurd h.leads
IsName-name_ok (c ∷ cs) h = ground (arith, All-all_label (c ∷ cs) h.chars, h.leads, h.short)

pub All_map {ℓ} :
    {A : Type 0} (P Q : A → Type ℓ) → ((a : A) → P a → Q a) → (xs : List A) → All P xs → All Q xs
All_map P Q f [] h = tt
All_map P Q f (x ∷ xs) (p, h) = (f x p, All_map P Q f xs h)

pub LabelChar-Lacks : (n : Str) → All LabelChar n → Lacks slash n
LabelChar-Lacks = All_map LabelChar (λ c. c ≢ slash) (λ c h. ground arith)

-- What the kinds have in common: ASCII without a slash, at most seven characters.
abbrev pub KindShape : Str → Type 0
KindShape k = Lacks slash k × All (λ c. c < 0x80) k × (length k ≤ 7)

kinds_shape : All KindShape kinds
kinds_shape = omega arith

pub kind_shape : (k : Str) → contains kinds k ≡ true → KindShape k
kind_shape k h = contains-All KindShape kinds k kinds_shape h

-- `id` names a kind and a name on `host`, and `proposed` is `<kind>/<name>` or `<kind>/<any>/<name>`.
pub record Names (proposed host id : Str) : Type 0 where
  pub kind : Str
  pub name : Str
  pub known : contains kinds kind ≡ true
  pub named : IsName name
  pub from :
      (proposed ≡ kind ++ (slash ∷ name))
      ⊎ ((any : Str) × Lacks slash any × (proposed ≡ full_id kind any name))
  pub to : id ≡ full_id kind host name

stamp_parts-eq_some :
    (k h n id : Str)
    → stamp_parts k h n ≡ some id
    → (contains kinds k ≡ true) × (name_ok n ≡ true) × (id ≡ full_id k h n)
unfolding stamp_parts
stamp_parts-eq_some k h n id e = ground arith

stamp_split-Names :
    (parts : List Str) (host id : Str)
    → All (Lacks slash) parts
    → stamp_split parts host ≡ some id
    → Names (join slash parts) host id
unfolding stamp_split join
stamp_split-Names (k ∷ n ∷ []) host id h e =
    let (known, named, to) = stamp_parts-eq_some k host n id e in
    record {
      kind = k;
      name = n;
      known = known;
      named = name_ok-IsName n named;
      from = inl refl;
      to = to;
    }
stamp_split-Names (k ∷ any ∷ n ∷ []) host id h e =
    let (known, named, to) = stamp_parts-eq_some k host n id e in
    record {
      kind = k;
      name = n;
      known = known;
      named = name_ok-IsName n named;
      from = inr (any, h.1.0, refl);
      to = to;
    }
stamp_split-Names [] host id h e = cc
stamp_split-Names (k ∷ []) host id h e = cc
stamp_split-Names (k ∷ a ∷ b ∷ c ∷ r) host id h e = cc

-- What `stamp` gives names a known kind and a well-formed name, on the router's host.
pub stamp-Names : (proposed host id : Str) → stamp proposed host ≡ some id → Names proposed host id
unfolding stamp
stamp-Names proposed host id e =
    subst (λ p. Names p host id) (join-split slash proposed)
      (stamp_split-Names (split slash proposed) host id (split-Lacks slash proposed) e)

split_two :
    (k n : Str) → Lacks slash k → Lacks slash n → split slash (k ++ (slash ∷ n)) ≡ k ∷ n ∷ []
split_two k n hk hn = split_sep slash k n hk ∙ ap (λ t. k ∷ t) (split-eq_single slash n hn)

split_three :
    (k a n : Str)
    → Lacks slash k
    → Lacks slash a
    → Lacks slash n
    → split slash (full_id k a n) ≡ k ∷ a ∷ n ∷ []
split_three k a n hk ha hn =
    split_sep slash k (a ++ (slash ∷ n)) hk ∙ ap (λ t. k ∷ t) (split_two a n ha hn)

stamp_parts_ok :
    (k h n : Str)
    → contains kinds k ≡ true
    → name_ok n ≡ true
    → stamp_parts k h n ≡ some (full_id k h n)
unfolding stamp_parts
stamp_parts_ok k h n known named = rw (known, named)

-- And `stamp` accepts whatever names one.
pub Names-stamp : (proposed host id : Str) → Names proposed host id → stamp proposed host ≡ some id
unfolding stamp stamp_split
Names-stamp proposed host id h =
    let k : Lacks slash h.kind = (kind_shape h.kind h.known).0 in
    let n : Lacks slash h.name = LabelChar-Lacks h.name h.named.chars in
    let done : stamp_parts h.kind host h.name ≡ some (full_id h.kind host h.name) =
      stamp_parts_ok h.kind host h.name h.known (IsName-name_ok h.name h.named) in
    elim h.from [
      | inl e ↦ rw (e, stamp, split_two h.kind h.name k n, stamp_split, done, h.to)
      | inr (any, lacks, e) ↦
          rw (e, stamp, split_three h.kind any h.name k lacks n, stamp_split, done, h.to)
    ]

-- `stamp` gives an id exactly if the proposal is a known kind and a valid name (`IsName`), with or
-- without a host between them that has no slash: the id is that kind, the router's host and that name.
pub stamp_iff : (proposed host id : Str) → (stamp proposed host ≡ some id) ↔ Names proposed host id
stamp_iff proposed host id = (stamp-Names proposed host id, Names-stamp proposed host id)

-- A registered id, proposed again to any router, keeps its kind and name and gets that router's host.
pub restamp :
    (proposed host id other : Str)
    → Lacks slash host
    → stamp proposed host ≡ some id
    → (id' : Str) × (stamp id other ≡ some id') × (stamp proposed other ≡ some id')
restamp proposed host id other lacks e =
    let h : Names proposed host id = stamp-Names proposed host id e in
    let id' = full_id h.kind other h.name in
    (
      id',
      Names-stamp id other id' (record {
        kind = h.kind;
        name = h.name;
        known = h.known;
        named = h.named;
        from = inr (host, lacks, h.to);
        to = refl;
      }),
      Names-stamp proposed other id' (record {
        kind = h.kind;
        name = h.name;
        known = h.known;
        named = h.named;
        from = h.from;
        to = refl;
      }),
    )

-- The kind of the stamped id is the kind of what was proposed.
pub kind-stamp : (proposed host id : Str) → stamp proposed host ≡ some id → kind id ≡ kind proposed
unfolding kind
kind-stamp proposed host id e =
    let h : Names proposed host id = stamp-Names proposed host id e in
    let k : Lacks slash h.kind = (kind_shape h.kind h.known).0 in
    let of_id : split slash id ≡ h.kind ∷ split slash (host ++ (slash ∷ h.name)) =
      ap (split slash) h.to ∙ split_sep slash h.kind _ k in
    elim h.from [
      | inl p ↦ rw (of_id, p, split_sep slash h.kind h.name k)
      | inr (any, _, p) ↦ rw (of_id, p, split_sep slash h.kind (any ++ (slash ∷ h.name)) k)
    ]
