-- ===== src/System/Tags.antt =====
-- tags.go: parseTag and hasTag, on tags as lists of their code points.
use pecs.Prelude.{
  ℕ, ◌≡◌, refl, ◌∙◌, Bool, true, false, ◌&&◌, ◌||◌, List, [], ◌∷◌, ◌++◌, any, arith, ◌==◌, leb,
  if◌then◌else◌, Bool-cases, inl, inr, ◌⊎◌,
}

-- unicode.IsSpace, by which strings.TrimSpace trims.
abbrev pub is_space : ℕ → Bool
is_space c =
    c == 32
    || (leb 9 c && leb c 13)
    || c == 133
    || c == 160
    || c == 5760
    || (leb 8192 c && leb c 8202)
    || c == 8232
    || c == 8233
    || c == 8239
    || c == 8287
    || c == 12288

-- strings.SplitSeq(tag, ","), collected: `part` is the part so far.
unfoldable pub split_commas : List ℕ → List ℕ → List (List ℕ)
split_commas part [] = part ∷ []
split_commas part (c ∷ cs) =
    let next = split_commas [] cs in
    let same = split_commas (part ++ c ∷ []) cs in if c == b',' then part ∷ next else same

unfoldable pub trim_left : List ℕ → List ℕ
trim_left [] = []
trim_left (c ∷ cs) = let rest = trim_left cs in if is_space c then rest else c ∷ cs

unfoldable pub trim_right : List ℕ → List ℕ
trim_right [] = []
trim_right (c ∷ cs) = elim (trim_right cs) [
  | [] ↦ if is_space c then [] else c ∷ []
  | d ∷ ds ↦ c ∷ d ∷ ds
]

unfoldable pub trim_space : List ℕ → List ℕ
unfolding trim_left trim_right
trim_space part = trim_right (trim_left part)

-- `==` on strings.
unfoldable pub same_bytes : List ℕ → List ℕ → Bool
same_bytes [] [] = true
same_bytes [] (y ∷ ys) = false
same_bytes (x ∷ xs) [] = false
same_bytes (x ∷ xs) (y ∷ ys) = x == y && same_bytes xs ys

-- The modifiers.
abbrev pub mod_mut : List ℕ
mod_mut = b'm' ∷ b'u' ∷ b't' ∷ []

abbrev pub mod_opt : List ℕ
mod_opt = b'o' ∷ b'p' ∷ b't' ∷ []

abbrev pub mod_rel : List ℕ
mod_rel = b'r' ∷ b'e' ∷ b'l' ∷ []

abbrev pub mod_res : List ℕ
mod_res = b'r' ∷ b'e' ∷ b's' ∷ []

abbrev pub mod_peer : List ℕ
mod_peer = b'p' ∷ b'e' ∷ b'e' ∷ b'r' ∷ []

abbrev pub mod_shared : List ℕ
mod_shared = b's' ∷ b'h' ∷ b'a' ∷ b'r' ∷ b'e' ∷ b'd' ∷ []

pub record TagInfo : Type 0 where
  pub mutable : Bool
  pub optional : Bool
  pub relation : Bool
  pub resource : Bool
  pub peer : Bool
  pub shared : Bool

abbrev pub no_tags : TagInfo
no_tags = record {
  mutable = false;
  optional = false;
  relation = false;
  resource = false;
  peer = false;
  shared = false;
}

-- The switch of parseTag, on a trimmed part.
unfoldable pub add_part : List ℕ → TagInfo → TagInfo
unfolding same_bytes
add_part part info =
    if same_bytes part mod_mut
    then record info { mutable = true }
    else if same_bytes part mod_opt
    then record info { optional = true }
    else if same_bytes part mod_rel
    then record info { relation = true }
    else if same_bytes part mod_res
    then record info { resource = true }
    else if same_bytes part mod_peer
    then record info { peer = true }
    else if same_bytes part mod_shared
    then record info { shared = true }
    else info

unfoldable pub add_parts : List (List ℕ) → TagInfo → TagInfo
unfolding add_part trim_space
add_parts [] info = info
add_parts (part ∷ parts) info = add_parts parts (add_part (trim_space part) info)

unfoldable pub parse_tag : List ℕ → TagInfo
unfolding add_parts split_commas
parse_tag [] = no_tags
parse_tag (c ∷ cs) = add_parts (split_commas [] (c ∷ cs)) no_tags

unfoldable pub has_tag : List ℕ → List ℕ → Bool
unfolding same_bytes split_commas trim_space
has_tag [] modifier = false
has_tag (c ∷ cs) modifier =
    any (λ part. same_bytes (trim_space part) modifier) (split_commas [] (c ∷ cs))

-- The flags of a TagInfo.
pub data Flag : Type 0 where
  flag_mut flag_opt flag_rel flag_res flag_peer flag_shared : Flag

abbrev pub modifier_of : Flag → List ℕ
modifier_of flag_mut = mod_mut
modifier_of flag_opt = mod_opt
modifier_of flag_rel = mod_rel
modifier_of flag_res = mod_res
modifier_of flag_peer = mod_peer
modifier_of flag_shared = mod_shared

abbrev pub flag_of : Flag → TagInfo → Bool
flag_of flag_mut i = i.mutable
flag_of flag_opt i = i.optional
flag_of flag_rel i = i.relation
flag_of flag_res i = i.resource
flag_of flag_peer i = i.peer
flag_of flag_shared i = i.shared

same_bytes-eq : (a b : List ℕ) → same_bytes a b ≡ true → a ≡ b
unfolding same_bytes
same_bytes-eq [] [] e = refl
same_bytes-eq [] (y ∷ ys) e = absurd cc
same_bytes-eq (x ∷ xs) [] e = absurd cc
same_bytes-eq (x ∷ xs) (y ∷ ys) e = ground (arith, same_bytes-eq xs ys)

same_bytes_self : (a : List ℕ) → same_bytes a a ≡ true
unfolding same_bytes
same_bytes_self [] = refl
same_bytes_self (x ∷ xs) = ground (arith, same_bytes_self xs)

-- The switch on a modifier itself.
known-flag :
    (g f : Flag) (i : TagInfo)
    → flag_of f (add_part (modifier_of g) i)
      ≡ (same_bytes (modifier_of g) (modifier_of f) || flag_of f i)
unfolding add_part same_bytes
known-flag flag_mut flag_mut i = refl
known-flag flag_opt flag_mut i = refl
known-flag flag_rel flag_mut i = refl
known-flag flag_res flag_mut i = refl
known-flag flag_peer flag_mut i = refl
known-flag flag_shared flag_mut i = refl
known-flag _ _ i = refl

add_part-known :
    (g f : Flag) (part : List ℕ) (i : TagInfo)
    → same_bytes part (modifier_of g) ≡ true
    → flag_of f (add_part part i) ≡ (same_bytes part (modifier_of f) || flag_of f i)
add_part-known g f part i e = rw (same_bytes-eq part (modifier_of g) e) (known-flag g f i)

add_part_other :
    (part : List ℕ) (i : TagInfo)
    → ((g : Flag) → same_bytes part (modifier_of g) ≡ false)
    → add_part part i ≡ i
unfolding add_part
add_part_other part i n =
    rw (n flag_mut, n flag_opt, n flag_rel, n flag_res, n flag_peer, n flag_shared) refl

-- Is the part a modifier?
modifier-cases :
    (part : List ℕ)
    → ((g : Flag) × (same_bytes part (modifier_of g) ≡ true))
      ⊎ ((g : Flag) → same_bytes part (modifier_of g) ≡ false)
modifier-cases part = elim (Bool-cases (same_bytes part mod_mut)) [
  | inl e ↦ inl (flag_mut, e)
  | inr a ↦ elim (Bool-cases (same_bytes part mod_opt)) [
    | inl e ↦ inl (flag_opt, e)
    | inr b ↦ elim (Bool-cases (same_bytes part mod_rel)) [
      | inl e ↦ inl (flag_rel, e)
      | inr c ↦ elim (Bool-cases (same_bytes part mod_res)) [
        | inl e ↦ inl (flag_res, e)
        | inr d ↦ elim (Bool-cases (same_bytes part mod_peer)) [
          | inl e ↦ inl (flag_peer, e)
          | inr p ↦ elim (Bool-cases (same_bytes part mod_shared)) [
            | inl e ↦ inl (flag_shared, e)
            | inr s ↦ inr (λ g. elim g as (λ k. same_bytes part (modifier_of k) ≡ false) [
              | flag_mut ↦ a
              | flag_opt ↦ b
              | flag_rel ↦ c
              | flag_res ↦ d
              | flag_peer ↦ p
              | flag_shared ↦ s
            ])
          ]
        ]
      ]
    ]
  ]
]

add_part-flag :
    (f : Flag) (part : List ℕ) (i : TagInfo)
    → flag_of f (add_part part i) ≡ (same_bytes part (modifier_of f) || flag_of f i)
add_part-flag f part i = elim (modifier-cases part) [
  | inl (g, e) ↦ add_part-known g f part i e
  | inr n ↦ rw (add_part_other part i n, n f) refl
]

add_parts-flag :
    (f : Flag) (parts : List (List ℕ)) (i : TagInfo)
    → flag_of f (add_parts parts i)
      ≡ (any (λ part. same_bytes (trim_space part) (modifier_of f)) parts || flag_of f i)
unfolding add_parts
add_parts-flag f [] i = refl
add_parts-flag f (part ∷ parts) i =
    add_parts-flag f parts (add_part (trim_space part) i)
    ∙ ground (arith, add_part-flag f (trim_space part) i)

no_tags-flag : (f : Flag) → flag_of f no_tags ≡ false
no_tags-flag flag_mut = refl
no_tags-flag _ = refl

-- parseTag sets a flag exactly if hasTag finds its modifier.
pub parse_tag-has_tag :
    (f : Flag) (tag : List ℕ) → flag_of f (parse_tag tag) ≡ has_tag tag (modifier_of f)
unfolding parse_tag has_tag
parse_tag-has_tag f [] = no_tags-flag f
parse_tag-has_tag f (c ∷ cs) =
    add_parts-flag f (split_commas [] (c ∷ cs)) no_tags ∙ ground (arith, no_tags-flag f)
