-- ===== src/Path/Normal.antt =====
-- What `lexically_normal` of std::filesystem leaves of a path, as Path states it.
use hybrid_ftp.Base.{
  ◌≡◌, refl, ap, inl, inr, Bool, true, false, ◌||◌, List, [], ◌∷◌, ◌++◌, append-nil, append_assoc,
  Bool-cases, All, All-append,
}
use hybrid_ftp.Text.{Text, same, is_empty}
use hybrid_ftp.Path.{
  FilePath, dot, dot_dot, init, Walk, walk_element, walk, walked_path, lexically_normal,
}

-- No separator is left empty, and nothing stands for a directory itself or for its parent.
abbrev pub IsName : Text → Type 0
IsName e = ((is_empty e || same e dot) ≡ false) × (same e dot_dot ≡ false)

All-init : (ns : List Text) → All IsName ns → All IsName (init ns)
unfolding init
All-init [] h = tt
All-init (n ∷ []) h = tt
All-init (n ∷ (n' ∷ ns)) h = (h.0, All-init (n' ∷ ns) h.1)

element-names : (w : Walk) (e : Text) → All IsName w.0 → All IsName (walk_element w e).0
unfolding walk_element
element-names (ns, trailing) e h = elim (Bool-cases (is_empty e || same e dot)) [
  | inl skip ↦ rw skip h
  | inr keep ↦ elim (Bool-cases (same e dot_dot)) [
    | inl up ↦ rw (keep, up) (All-init ns h)
    | inr down ↦ rw (keep, down) (All-append IsName ns (e ∷ []) h ((keep, down), tt))
  ]
]

walk-names : (es : List Text) (w : Walk) → All IsName w.0 → All IsName (walk w es).0
unfolding walk
walk-names [] w h = h
walk-names (e ∷ es) w h = walk-names es (walk_element w e) (element-names w e h)

-- Names, with a separator behind them or without one.
pub data IsNormal : FilePath → Type 0 where
  bare : (ns : List Text) → All IsName ns → IsNormal ns
  closed : (n : Text) (ns : List Text) → All IsName (n ∷ ns) → IsNormal (n ∷ ns ++ [] ∷ [])

walked-IsNormal : (w : Walk) → All IsName w.0 → IsNormal (walked_path w)
unfolding walked_path
walked-IsNormal ([], trailing) h = bare [] tt
walked-IsNormal (n ∷ ns, true) h = closed n ns h
walked-IsNormal (n ∷ ns, false) h = bare (n ∷ ns) h

-- A normal path is made of names only, but for an empty last element that stands for a separator
-- behind them: no "." and no ".." is left in it.
pub lexically_normal-IsNormal : (p : FilePath) → IsNormal (lexically_normal p)
unfolding lexically_normal
lexically_normal-IsNormal p = walked-IsNormal (walk ([], false) p) (walk-names p ([], false) tt)

element_name :
    (ns : List Text) (trailing : Bool) (e : Text)
    → IsName e
    → walk_element (ns, trailing) e ≡ (ns ++ e ∷ [], false)
unfolding walk_element
element_name ns trailing e h = rw (h.0, h.1) refl

walk_names : (ns front : List Text) → All IsName ns → walk (front, false) ns ≡ (front ++ ns, false)
unfolding walk
walk_names [] front h = rw (append-nil front) refl
walk_names (n ∷ ns) front h =
    rw (element_name front false n h.0, walk_names ns (front ++ n ∷ []) h.1)
      (ap (λ (l : List Text). (l, false)) (append_assoc front (n ∷ []) ns))

walk-append : (a b : List Text) (w : Walk) → walk w (a ++ b) ≡ walk (walk w a) b
unfolding walk
walk-append [] b w = refl
walk-append (e ∷ a) b w = walk-append a b (walk_element w e)

IsNormal-fixed : (p : FilePath) → IsNormal p → lexically_normal p ≡ p
unfolding lexically_normal walked_path
IsNormal-fixed _ (bare [] h) = refl
IsNormal-fixed _ (bare (n ∷ ns) h) = rw (walk_names (n ∷ ns) [] h) refl
IsNormal-fixed _ (closed n ns h) =
    rw (walk-append (n ∷ ns) ([] ∷ []) ([], false), walk_names (n ∷ ns) [] h) refl

-- To bring a path into its normal form a second time changes nothing.
lexically_normal_idempotent :
    (p : FilePath) → lexically_normal (lexically_normal p) ≡ lexically_normal p
lexically_normal_idempotent p = IsNormal-fixed (lexically_normal p) (lexically_normal-IsNormal p)
