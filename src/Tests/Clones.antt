-- ===== src/Tests/Clones.antt =====
-- The theorems on subdirectories and clones at concrete inputs.
use grabber.Base.{
  ◌↔◌, ◌-◌, ◌^◌, true, false, List, [], ◌∷◌, ◌≡◌, ◌≢◌, ◌⊎◌, refl, none, some, ok, err, All, pos,
}
use grabber.Text.{codes, split, is_empty, text_eq, equal_fold}
use grabber.FilePath.{slash, join_path}
use grabber.FilePath.Laws.{IsPlain}
use grabber.Limitio.{copy, copy_largest}
use grabber.Ssrf.{Guard, internal, enabled, host_allowed}
use grabber.Ssrf.Proxied.{not_found, Resolver, check_proxied_host, check_proxied_ascii, ascii_forms}
use grabber.Ssrf.Proxied.Dotted.{TakesDot}
use grabber.Ssrf.Proxied.Forms.{HostPermitted, check_proxied_host-HostPermitted}
use grabber.Git.Url.{resolve_subdir}
use grabber.Git.Url.Subdir.{resolve_subdir-IsPlain}
use grabber.Git.Refs.{authentication_required, looks_like_commit_hash, is_hex_digit}
use grabber.Git.Sparse.{
  regular, blob, tree, Entries, nil, entry, SparseEntry, SparseSelection, tree_at, sparse_entries,
  sparse_eligible, ancestor_dirs, subtree, walk_to, add_ancestors, add_entries, add, add_walk,
  materialisable,
}
use grabber.Git.Sparse.Complete.{IsIn, here, inside, sparse_entries-complete}
use grabber.Git.Download.{UrlAttempt, by_git, download}
use grabber.Git.Download.Reaching.{Reaches, download_iff}
use grabber.Git.Download.Prepare.{
  GitWorld, sparse_way, full_way, served, unsupported, directory, clone_and_prepare, get_repo,
  check_out, check_subdir,
}
use grabber.Git.Download.Prepare.Done.{HasSubdir, HasCommit, clone_and_prepare-Has}

resolve_subdir-IsPlain_example :
    (resolve_subdir (codes "../a//b") [] ≡ [])
    ⊎ All IsPlain (split slash (resolve_subdir (codes "../a//b") []))
resolve_subdir-IsPlain_example = resolve_subdir-IsPlain (codes "../a//b") []

copy_largest_example : copy (record { size = 12; breaks = false }) (pos (2 ^ 63 - 1)) ≡ (0, none)
copy_largest_example = copy_largest (record { size = 12; breaks = false })

abbrev guard : Guard
guard = record {
  level = internal;
  custom_test = none;
  allow_hosts = codes "intranet" ∷ [];
  allow_ips = [];
  allow_nets = [];
}

abbrev resolver : Resolver
resolver = record {
  lookup_form = some;
  punycode_form = some;
  lookup = λ host. not_found;
  context_done = false;
}

host_passes : check_proxied_host resolver guard (codes "intranet") ≡ ok tt
unfolding check_proxied_host enabled is_empty ascii_forms check_proxied_ascii host_allowed
    equal_fold
host_passes = refl

check_proxied_host-HostPermitted_example :
    HostPermitted resolver guard (codes "intranet") × TakesDot resolver guard (codes "intranet")
check_proxied_host-HostPermitted_example =
    check_proxied_host-HostPermitted resolver guard (codes "intranet") host_passes

abbrev inner : Entries
inner = entry (codes "c") (tree (entry (codes "f") (blob regular (codes "h1")) nil)) nil

abbrev whole : Entries
whole = entry (codes "a") (tree inner) nil

abbrev selected : SparseEntry
selected = record {
  path = join_path (join_path (codes "a") (codes "c")) (codes "f");
  mode = regular;
  hash = codes "h1";
}

abbrev selection : SparseSelection
selection = record { files = selected ∷ []; submodules = [] }

subdir_full : is_empty (codes "a") ≡ false
unfolding is_empty
subdir_full = refl

subdir_found : tree_at (codes "a") whole ≡ some inner
unfolding tree_at is_empty walk_to split subtree text_eq
subdir_found = refl

selecting : sparse_entries (codes "a") whole ≡ ok selection
unfolding sparse_entries add_ancestors ancestor_dirs tree_at is_empty split walk_to subtree text_eq
    add_walk add materialisable add_entries
selecting = refl

is_file : materialisable regular ≡ true
unfolding materialisable
is_file = refl

sparse_entries-complete_example : IsIn selected selection.files
sparse_entries-complete_example =
    sparse_entries-complete selected (codes "a") whole inner selection subdir_full subdir_found
      selecting (inside (here is_file refl))

abbrev urls : List UrlAttempt
urls =
    record { probe = none; outcome = err authentication_required }
    ∷ record { probe = none; outcome = ok tt }
    ∷ []

download_iff_example : (download true true (codes "main") none urls ≡ by_git) ↔ Reaches urls
download_iff_example = download_iff true (codes "main") none urls

abbrev world : GitWorld
world = record {
  reset_ok = true;
  sparse = unsupported;
  pinned_eligible = false;
  pinned = served;
  full = none;
  commit_resolved = true;
  checked_out = true;
  submodules_updated = true;
  subdir_stat = directory;
}

not_sparse : full_way ≢ sparse_way
not_sparse = cc

cloned : clone_and_prepare world (codes "a") (codes "abcdef0") true ≡ ok full_way
unfolding clone_and_prepare sparse_eligible is_empty get_repo check_out looks_like_commit_hash
    is_hex_digit check_subdir
cloned = refl

clone_and_prepare-Has_example :
    HasSubdir world (codes "a") (codes "abcdef0") true
    × HasCommit world (codes "a") (codes "abcdef0") true
clone_and_prepare-Has_example =
    clone_and_prepare-Has world (codes "a") (codes "abcdef0") true full_way not_sparse cloned
