-- ===== src/Srv/Domains.antt =====
-- What the checks of src/srv.rs on the names of hosts mean for the bytes of the names.
use mongod_proxy.Bytes.Laws.{eq_bytes_iff}
use mongod_proxy.Bytes.Text.{ascii}
use mongod_proxy.Uri.Text.{split}
use mongod_proxy.Bytes.Defs.{eq_bytes, Bytes}
use mongod_proxy.Srv.Resolve.{
  strip_trailing_dot, labels, parent_domain, target_in_parent_domain, join, ends_with, eq_labels,
}
use mongod_proxy.Prelude.{
  le→leb, take-append-drop, take, append_assoc, subst, ◌-◌, ap, inr, ◌∙◌, ◌⊎◌, length, arith, leb,
  sym, if◌then◌else◌, drop, Bool-cases, ◌++◌, ◌==◌, List, All, ℕ, ◌≡◌, ◌∷◌, inl, [], false, true,
  refl,
}

abbrev pub HasNoDot : Bytes → Type 0
HasNoDot s = All (λ (b : ℕ). (b == 46) ≡ false) s

-- The name is one label at least in front of the parent domain.
abbrev pub IsInside : Bytes → Bytes → Type 0
IsInside target parent = (front : Bytes) × (target ≡ front ++ (ascii "." ++ parent))

-- A name of three labels or more without the first one, and a name of fewer as it stands.
abbrev pub IsParent : Bytes → Bytes → Type 0
IsParent name parent =
    ((first : Bytes) × (second : Bytes) × (others : Bytes) × HasNoDot first
      × (name ≡ first ++ (ascii "." ++ parent))
      × (parent ≡ second ++ (ascii "." ++ others)))
    ⊎ ((parent ≡ name)
        × (HasNoDot name
            ⊎ ((first : Bytes) × (second : Bytes) × HasNoDot first
                × HasNoDot second
                × (name ≡ first ++ (ascii "." ++ second)))))

abbrev pub EndsInNoDot : Bytes → Type 0
EndsInNoDot [] = Unit
EndsInNoDot (b ∷ []) = (b == 46) ≡ false
EndsInNoDot (b ∷ c ∷ s) = EndsInNoDot (c ∷ s)

-- The name in front of one trailing dot, or the name as it stands if it has none.
abbrev pub IsUndotted : Bytes → Bytes → Type 0
IsUndotted s host = (s ≡ host ++ ascii ".") ⊎ ((host ≡ s) × EndsInNoDot s)

IsUndotted-later :
    (b c : ℕ) (s host : Bytes) → IsUndotted (c ∷ s) host → IsUndotted (b ∷ c ∷ s) (b ∷ host)
IsUndotted-later b c s host (inl e) = inl (ap (λ (l : Bytes). b ∷ l) e)
IsUndotted-later b c s host (inr (e, h)) = inr (ap (λ (l : Bytes). b ∷ l) e, h)

pub strip_trailing_dot-IsUndotted : (s : Bytes) → IsUndotted s (strip_trailing_dot s)
unfolding strip_trailing_dot
strip_trailing_dot-IsUndotted [] = inr (refl, tt)
strip_trailing_dot-IsUndotted (b ∷ []) = elim (Bool-cases (b == 46)) [
  | inl t ↦ let same : b ≡ 46 = ground arith in rw t (inl (ap (λ (c : ℕ). c ∷ []) same))
  | inr f ↦ rw f (inr (refl, refl))
]
strip_trailing_dot-IsUndotted (b ∷ c ∷ s) =
    IsUndotted-later b c s (strip_trailing_dot (c ∷ s)) (strip_trailing_dot-IsUndotted (c ∷ s))

join_push :
    (b : ℕ) (first : Bytes) (others : List Bytes)
    → join ((b ∷ first) ∷ others) ≡ b ∷ join (first ∷ others)
unfolding join
join_push b first [] = refl
join_push b first (m ∷ ls) = refl

-- The labels put together again are the name, and no label has a dot.
abbrev AreLabels : Bytes → Bytes × List Bytes → Type 0
AreLabels s (first, others) = (join (first ∷ others) ≡ s) × HasNoDot first × All HasNoDot others

push_label :
    (b : ℕ) (s : Bytes) (pieces : Bytes × List Bytes)
    → AreLabels s pieces
    → AreLabels (b ∷ s) (if b == 46 then ([], pieces.0 ∷ pieces.1) else (b ∷ pieces.0, pieces.1))
unfolding join
push_label b s (first, others) (e, h, hs) = elim (Bool-cases (b == 46)) [
  | inl t ↦
      let same : b ≡ 46 = ground arith in
      rw t (ap (λ l. 46 ∷ l) e ∙ ap (λ (c : ℕ). c ∷ s) (sym same), tt, (h, hs))
  | inr f ↦ rw f (join_push b first others ∙ ap (λ (l : Bytes). b ∷ l) e, (f, h), hs)
]

split-AreLabels : (s : Bytes) → AreLabels s (split 46 s)
unfolding split join
split-AreLabels [] = (refl, tt, tt)
split-AreLabels (b ∷ bs) = push_label b bs (split 46 bs) (split-AreLabels bs)

eq_labels-same : (xs ys : List Bytes) → eq_labels xs ys ≡ true → xs ≡ ys
unfolding eq_labels
eq_labels-same [] [] h = refl
eq_labels-same [] (y ∷ ys) h = cc
eq_labels-same (x ∷ xs) [] h = cc
eq_labels-same (x ∷ xs) (y ∷ ys) h = elim (Bool-cases (eq_bytes x y)) [
  | inl t ↦
      let rest : eq_labels xs ys ≡ true = ground arith in
      λ i. (eq_bytes_iff x y).0 t i ∷ eq_labels-same xs ys rest i
  | inr f ↦ absurd (ground arith)
]

ends_with-append :
    (xs ys : List Bytes) → ends_with xs ys ≡ true → (front : List Bytes) × (xs ≡ front ++ ys)
unfolding ends_with
ends_with-append xs ys h =
    let n = length xs - length ys in
    let same : eq_labels (drop n xs) ys ≡ true = ground arith in
    (
      take n xs,
      sym (take-append-drop n xs)
          ∙ ap (λ (l : List Bytes). take n xs ++ l) (eq_labels-same (drop n xs) ys same),
    )

join-append :
    (first : Bytes) (front : List Bytes) (l : Bytes) (ls : List Bytes)
    → join ((first ∷ front) ++ (l ∷ ls)) ≡ join (first ∷ front) ++ (ascii "." ++ join (l ∷ ls))
unfolding join
join-append first [] l ls = refl
join-append first (m ∷ front) l ls =
    ap (λ (t : Bytes). first ++ (ascii "." ++ t)) (join-append m front l ls)
    ∙ sym (append_assoc first (ascii "." ++ join (m ∷ front)) (ascii "." ++ join (l ∷ ls)))

inside_labels :
    (target parent : Bytes) (first : Bytes) (others front : List Bytes) (l : Bytes)
    (ls : List Bytes)
    → join (first ∷ others) ≡ target
    → join (l ∷ ls) ≡ parent
    → others ≡ front ++ (l ∷ ls)
    → IsInside target parent
inside_labels target parent first others front l ls e k h = (
  join (first ∷ front),
  sym e
      ∙ ap (λ (t : List Bytes). join (first ∷ t)) h
      ∙ join-append first front l ls
      ∙ ap (λ (t : Bytes). join (first ∷ front) ++ (ascii "." ++ t)) k,
)

-- A target that passes the check ends in the parent domain, behind a label and a dot.
pub target_in_parent_domain-IsInside :
    (target parent : Bytes) → target_in_parent_domain target parent ≡ true → IsInside target parent
unfolding target_in_parent_domain labels
target_in_parent_domain-IsInside target parent h =
    let found : ends_with (drop 1 (labels target)) (labels parent) ≡ true = ground arith in
    let (front, e) = ends_with-append (split 46 target).1 (labels parent) found in
    inside_labels target parent (split 46 target).0 (split 46 target).1 front (split 46 parent).0
      (split 46 parent).1 (split-AreLabels target).0 (split-AreLabels parent).0 e

by_labels-IsParent :
    (name first : Bytes) (others : List Bytes)
    → AreLabels name (first, others)
    → IsParent name
        (if leb 3 (length (first ∷ others)) then join (drop 1 (first ∷ others)) else name)
unfolding join
by_labels-IsParent name first [] (e, h, hs) = inr (refl, inl (subst HasNoDot e h))
by_labels-IsParent name first (m ∷ []) (e, h, hs) = inr (refl, inr (first, m, h, hs.0, sym e))
by_labels-IsParent name first (m ∷ n ∷ ls) (e, h, hs) =
    let long : leb 3 (length (first ∷ m ∷ n ∷ ls)) ≡ true = le→leb _ _ (omega arith) in
    rw long (inl (first, m, join (n ∷ ls), h, sym e, refl))

-- The parent domain is the name without its first label if that leaves two labels at least.
pub parent_domain-IsParent : (name : Bytes) → IsParent name (parent_domain name)
unfolding parent_domain labels
parent_domain-IsParent name =
    by_labels-IsParent name (split 46 name).0 (split 46 name).1 (split-AreLabels name)
