-- ===== src/Tests/Remote.antt =====
-- The theorems on HTTP and object stores at concrete inputs.
use grabber.Base.{ok, true, false, [], ◌∷◌, ◌≡◌, refl, none, some, All, pos}
use grabber.Text.{text_eq, codes, cut, trim_prefix, has_prefix, to_lower, trim_space, is_empty}
use grabber.FilePath.{base, is_rooted, join_path}
use grabber.Http.{name_of_path, UrlPackage, Downloader, file_name}
use grabber.Http.FileName.{IsComponent, file_name-IsComponent}
use grabber.Stores.{Store, page, download_dir}
use grabber.Stores.Inside.{Fits, download_dir-Fits}
use grabber.Hg.{split_hg_subdir}
use grabber.Oci.{oci_repo_path}
use grabber.Git.ErrBody.{round_trip, stripped, is_html_body}
use grabber.Tests.Choices.{parse_url}

abbrev pkg : UrlPackage
pkg = record {
  parse_url = parse_url;
  url_host = λ u. u.hostname;
  url_string = λ u. codes "https://git.example/org/repo";
}

abbrev plain : Downloader
plain = record { url = codes "https://git.example/org/repo"; archive = [] }

unnamed : is_empty plain.archive ≡ true
unfolding is_empty
unnamed = refl

file_name-IsComponent_example : IsComponent (file_name pkg plain)
file_name-IsComponent_example = file_name-IsComponent pkg plain unnamed

-- The format that a URL names is not checked, and may lead out of the directory.
format_escapes :
    join_path
      (codes "/tmp/grabber/1")
      (file_name pkg (record plain { archive = codes "/../../../../etc/x" }))
    ≡ codes "/etc/x"
unfolding file_name join_path
format_escapes = refl

abbrev store : Store
store = record {
  pages = λ prefix.
      page (some (codes "a/x.txt") ∷ none ∷ some (codes "a/") ∷ [])
      ∷ page (some (codes "a/../../x") ∷ [])
      ∷ [];
  object = λ key. some record { size = 30; breaks = false };
  mkdir_fails = λ path. false;
  create_fails = λ path. false;
}

download_dir-Fits_example :
    All (Fits store (codes "/out") 99) (download_dir store (codes "a/") (codes "/out") (pos 100)).0
unfolding is_rooted
download_dir-Fits_example = download_dir-Fits store (codes "/out") 99 (cc) refl (codes "a/")

-- The subdirectory of a Mercurial URL is not cleaned, and may lead out of the clone.
subdir_escapes :
    join_path (codes "/tmp/grabber/_clone") ((split_hg_subdir (codes "/repo//../../../etc")).1)
    ≡ codes "/etc"
unfolding split_hg_subdir join_path cut trim_prefix
subdir_escapes = refl

-- An error page is dropped, whatever type the server gives it.
html_dropped :
    round_trip (
      ok record {
        status = 502;
        content_type = codes "text/plain";
        body = some (codes "\n<HTML>oops", false);
      })
    ≡ ok record { status = 502; content_type = codes "text/plain"; body = some ([], false) }
unfolding round_trip stripped is_html_body has_prefix to_lower trim_space
html_dropped = refl

-- The path of a repository is neither the registry nor the tag.
repo_path : oci_repo_path (codes "r.example/org/app:1.2") (codes "r.example") ≡ codes "org/app"
unfolding oci_repo_path trim_prefix has_prefix
repo_path = refl

-- A path that ends in ".." names no file.
parent_named : name_of_path (codes "/a/..") ≡ codes ".."
unfolding name_of_path base is_empty text_eq
parent_named = refl
