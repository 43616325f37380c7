-- ===== src/Tests/Local.antt =====
-- The theorems on options and on local files at concrete inputs.
use grabber.Base.{◌↔◌, Bool, true, false, List, [], ◌∷◌, ◌≡◌, refl, none, some, All, if◌then◌else◌}
use grabber.Text.{codes, text_eq, is_empty, has_prefix}
use grabber.FilePath.{clean, clean_stack, is_rooted, dir, base}
use grabber.FilePath.Laws.{IsPlain}
use grabber.Ssrf.{default_level, no_guard, loopback, new_guard, enabled}
use grabber.Settings.Network.{ssrf_guard}
use grabber.Grabber.New.{Call, netrc_call, ssrf_protection_call, ssrf_allow_hosts_call, new}
use grabber.Grabber.New.Guarded.{last_level, last_test, all_hosts, new-guarded}
use grabber.File.{
  Place, abs_path, climb, or_climb, join_all, resolve_path, check_allowed, is_within,
}
use grabber.File.Resolve.{nearest, placed, resolve_path-nearest}
use grabber.File.Copy.{Node, file, link, folder, node, nil, copy_dir}
use grabber.File.Copy.Inside.{Stays, copy_dir-Stays}

abbrev calls : List (Call Bool)
calls =
    netrc_call true
    ∷ ssrf_protection_call no_guard
    ∷ ssrf_allow_hosts_call (codes "intranet" ∷ [])
    ∷ ssrf_protection_call loopback
    ∷ []

new-guarded_example :
    (ssrf_guard (new (codes "/tmp") [] calls).settings
      ≡ new_guard (last_level calls default_level) (last_test calls none) (all_hosts calls))
    × ((enabled (ssrf_guard (new (codes "/tmp") [] calls).settings) ≡ false)
        ↔ (last_level calls default_level ≡ no_guard))
new-guarded_example = new-guarded (codes "/tmp") [] calls

-- "/srv" is a link to "/data", and nothing is below it yet.
abbrev a_place : Place
a_place = record {
  working_dir = none;
  eval_symlinks = λ path.
      if text_eq path (codes "/srv")
      then some (codes "/data")
      else if text_eq path (codes "/")
      then some (codes "/")
      else none;
  stat = λ path. none;
}

rooted : is_rooted (codes "/srv/a/b") ≡ true
unfolding is_rooted has_prefix
rooted = refl

resolve_path-nearest_example :
    resolve_path a_place (codes "/srv/a/b")
    ≡ some (elim (a_place.eval_symlinks (clean (codes "/srv/a/b"))) [
      | some resolved ↦ resolved
      | none ↦
          placed
            (clean (codes "/srv/a/b"))
            (nearest a_place.eval_symlinks (clean_stack (codes "/srv/a/b")) [])
    ])
resolve_path-nearest_example = resolve_path-nearest a_place (codes "/srv/a/b") rooted

resolved_there : resolve_path a_place (codes "/srv/a/b") ≡ some (codes "/data/a/b")
unfolding resolve_path abs_path is_rooted text_eq clean climb dir or_climb join_all base
resolved_there = refl

-- With "/" as the only allowed directory, a path below it is refused.
root_allows_nothing : check_allowed a_place (codes "/srv/a") (codes "/" ∷ []) ≡ false
unfolding check_allowed resolve_path abs_path is_rooted text_eq clean climb dir or_climb is_within
    join_all base
root_allows_nothing = refl

abbrev tree : Node
tree = folder 0o755 (
    node (codes "a") (file 0o644 true true)
      (node (codes "b") (link (some (codes "/etc/passwd"))) nil))

a-IsPlain : IsPlain (codes "a")
unfolding is_empty text_eq
a-IsPlain = record { not_empty = refl; not_dot = refl; not_dot_dot = refl; no_slash = (refl, tt) }

b-IsPlain : IsPlain (codes "b")
unfolding is_empty text_eq
b-IsPlain = record { not_empty = refl; not_dot = refl; not_dot_dot = refl; no_slash = (refl, tt) }

copy_dir-Stays_example : All (Stays (codes "/out")) (copy_dir (λ c. false) (codes "/out") tree).0
unfolding is_rooted
copy_dir-Stays_example =
    copy_dir-Stays (codes "/out") (λ c. false) (cc) (unfold clean_stack in cc) refl tree
      (a-IsPlain, tt, (b-IsPlain, tt, tt))
