-- ===== src/Git/Url/Subdir.antt =====
-- Where a subdirectory that a URL names can lie.
use mathlib.Core.List.{concat-ne-nil}
use grabber.Base.{
  true, List, [], ◌∷◌, ◌++◌, ◌≡◌, ◌≢◌, ◌⊎◌, inl, inr, refl, sym, ap, ◌∙◌, subst, All,
  All-append_left, All-append_right, All-reverse, reverse, reverse-reverse, reverse-cons,
  append-nil, if◌then◌else◌,
}
use grabber.Text.{Bytes, split, join, trim, is_empty}
use grabber.Text.Split.{Lacks, split-append, split-join}
use grabber.Text.Trim.{trim-cons}
use grabber.FilePath.{slash, render, clean_stack, clean}
use grabber.FilePath.Laws.{IsPlain, IsStack, IsStack-IsPlain, IsStack-Lacks, clean_stack-IsStack}
use grabber.Git.Url.{resolve_subdir}

not_empty_part : ¬ IsPlain []
not_empty_part p = unfold is_empty in cc (p.not_empty)

no_front : (s t : Bytes) → All IsPlain (split slash s) → s ≢ slash ∷ t
unfolding split
no_front s t h e =
    let parts : All IsPlain (split slash [] ++ split slash t) =
      subst (All IsPlain) (ap (split slash) e ∙ split-append slash [] t) h in
    not_empty_part ((All-append_left IsPlain (split slash []) (split slash t) parts).0)

no_back : (s t : Bytes) → All IsPlain (split slash s) → reverse s ≢ slash ∷ t
unfolding split
no_back s t h e =
    let whole : s ≡ reverse t ++ slash ∷ [] =
      sym (reverse-reverse s) ∙ ap reverse e ∙ reverse-cons slash t in
    let parts : All IsPlain (split slash (reverse t) ++ split slash []) =
      subst (All IsPlain) (ap (split slash) whole ∙ split-append slash (reverse t) []) h in
    not_empty_part ((All-append_right IsPlain (split slash (reverse t)) (split slash []) parts).0)

parts_of :
    (w : Bytes) (ws : List Bytes)
    → IsStack true (w ∷ ws)
    → All IsPlain (split slash (join slash (reverse (w ∷ ws))))
parts_of w ws h =
    subst (All IsPlain)
      (sym (
        split-join slash (reverse (w ∷ ws)) (rw reverse-cons (concat-ne-nil w (reverse ws)))
          (All-reverse (Lacks slash) (w ∷ ws) (IsStack-Lacks true (w ∷ ws) h))))
      (All-reverse IsPlain (w ∷ ws) (
        IsStack-IsPlain true (w ∷ ws) [] (subst (IsStack true) (sym (append-nil (w ∷ ws))) h) refl))

trimmed :
    (stack : List Bytes)
    → IsStack true stack
    → (trim slash (render true stack) ≡ [])
      ⊎ All IsPlain (split slash (trim slash (render true stack)))
unfolding render
trimmed [] h = inl (unfold join trim in refl)
trimmed (w ∷ ws) h =
    let plain = parts_of w ws h in
    inr (
      subst (λ s. All IsPlain (split slash s))
        (sym (trim-cons slash _ (λ t. no_front _ t plain) (λ t. no_back _ t plain))) plain)

-- Whatever a URL gives as its subdirectory, in its path or its query, the subdirectory is empty or
-- plain names below the repository's root: no part of it is empty, "." or "..".
pub resolve_subdir-IsPlain :
    (path_subdir query_subdir : Bytes)
    → (resolve_subdir path_subdir query_subdir ≡ [])
      ⊎ All IsPlain (split slash (resolve_subdir path_subdir query_subdir))
unfolding resolve_subdir clean
resolve_subdir-IsPlain path_subdir query_subdir =
    trimmed (clean_stack (slash ∷ (if is_empty path_subdir then query_subdir else path_subdir)))
      (clean_stack-IsStack (slash ∷ (if is_empty path_subdir then query_subdir else path_subdir)))
