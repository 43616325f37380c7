-- ===== src/File/Resolve.antt =====
-- `resolvePath` of protocols/file/file.go ends, and what it gives.
use grabber.Base.{
  ℕ, suc, zero, ◌<◌, true, List, [], ◌∷◌, ◌≡◌, refl, sym, ap, ◌∙◌, subst, Option, none, some,
  length, All, arith, append-nil,
}
use grabber.Text.{Bytes, has_prefix, cut, split, join}
use grabber.Text.Laws.{text_eq_refl}
use grabber.FilePath.{
  is_rooted, render, clean, clean_stack, dir, up_to_slash, last_slash, walk, step,
}
use grabber.FilePath.Laws.{IsPlain, IsStack, clean_stack-IsStack, IsStack-IsPlain}
use grabber.SafePath.Inside.{clean_lem}
use grabber.File.{Place, climb, or_climb, or_up, join_all, resolve_path, resolve_abs, abs_path}
use grabber.File.Climb.{dir-render, base-render, climbs, stack-length}

-- The nearest directory above that can be resolved, and the names below it: the absolute path with
-- the names `s`, the last one first, is not looked at itself.
unfoldable pub nearest :
    (Bytes → Option Bytes) → List Bytes → List Bytes → Option (Bytes × List Bytes)
nearest eval [] rest = none
nearest eval (w ∷ ws) rest = elim (eval (render true ws)) [
  | some root ↦ some (root, w ∷ rest)
  | none ↦ nearest eval ws (w ∷ rest)
]

-- The names below what they stand in, or the path itself if nothing can be resolved.
unfoldable pub placed : Bytes → Option (Bytes × List Bytes) → Bytes
placed abs none = abs
placed abs (some (root, names)) = join_all (root ∷ names)

dir-root : dir (render true []) ≡ render true []
unfolding dir up_to_slash last_slash cut has_prefix clean render clean_stack is_rooted walk step
    split join
dir-root = refl

climb-nearest :
    (eval : Bytes → Option Bytes) (abs : Bytes) (n : ℕ) (s rest : List Bytes)
    → All IsPlain s
    → length s < n
    → climb eval abs n (render true s) rest ≡ some (placed abs (nearest eval s rest))
unfolding climb nearest placed or_climb
climb-nearest eval abs zero s rest h le = absurd (omega arith)
climb-nearest eval abs (suc n) [] rest h le = rw (dir-root, text_eq_refl (render true [])) refl
climb-nearest eval abs (suc n) (w ∷ ws) rest (p, h) le =
    rw (dir-render w ws (p, h), climbs w ws p, base-render w ws p)
      (found (climb-nearest eval abs n ws (w ∷ rest) h (omega arith)) (eval (render true ws)))
  where
    found :
        climb eval abs n (render true ws) (w ∷ rest)
          ≡ some (placed abs (nearest eval ws (w ∷ rest)))
        → (r : Option Bytes)
        → or_climb (w ∷ rest) (climb eval abs n (render true ws) (w ∷ rest)) r
          ≡ some (
              placed abs
                (elim r [ some root ↦ some (root, w ∷ rest) | none ↦ nearest eval ws (w ∷ rest) ]))
    found above none = above
    found above (some root) = refl

clean_stack-IsPlain : (path : Bytes) → is_rooted path ≡ true → All IsPlain (clean_stack path)
clean_stack-IsPlain path rooted =
    IsStack-IsPlain true (clean_stack path) []
      (subst (IsStack true) (sym (append-nil (clean_stack path)))
        (subst (λ b. IsStack b (clean_stack path)) rooted (clean_stack-IsStack path)))
      refl

climb-clean :
    (eval : Bytes → Option Bytes) (path : Bytes)
    → is_rooted path ≡ true
    → climb eval (clean path) (suc (length (clean path))) (clean path) []
      ≡ some (placed (clean path) (nearest eval (clean_stack path) []))
climb-clean eval path rooted =
    let s = clean_stack path in
    let plain = clean_stack-IsPlain path rooted in
    let e : clean path ≡ render true s = clean_lem path ∙ ap (λ b. render b s) rooted in
    subst
      (λ p.
        climb eval (clean path) (suc (length p)) p []
        ≡ some (placed (clean path) (nearest eval s [])))
      (sym e)
      (climb-nearest eval (clean path) (suc (length (render true s))) s [] plain
        (omega (arith, stack-length s plain)))

abs_path_rooted :
    (working_dir : Option Bytes) (path : Bytes)
    → is_rooted path ≡ true
    → abs_path working_dir path ≡ some (clean path)
unfolding abs_path
abs_path_rooted working_dir path rooted = rw rooted refl

-- For an absolute path the way up of resolvePath ends, with as many rounds as the cleaned path has
-- bytes and one more: the result is what the path itself resolves to, or what the nearest directory
-- above that can be resolved gives with the names below it, or the cleaned path if there is none.
pub resolve_path-nearest :
    (at : Place) (path : Bytes)
    → is_rooted path ≡ true
    → resolve_path at path
      ≡ some (elim (at.eval_symlinks (clean path)) [
        | some resolved ↦ resolved
        | none ↦ placed (clean path) (nearest at.eval_symlinks (clean_stack path) [])
      ])
unfolding resolve_path resolve_abs or_up
resolve_path-nearest at path rooted =
    ap (resolve_abs at.eval_symlinks) (abs_path_rooted at.working_dir path rooted)
    ∙ found (at.eval_symlinks (clean path))
  where
    found :
        (r : Option Bytes)
        → or_up at.eval_symlinks (clean path) r
          ≡ some (elim r [
            | some resolved ↦ resolved
            | none ↦ placed (clean path) (nearest at.eval_symlinks (clean_stack path) [])
          ])
    found none = climb-clean at.eval_symlinks path rooted
    found (some resolved) = refl
