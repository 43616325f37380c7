-- ===== src/Tests/Accounts.antt =====
-- The theorems on netrc, on the credentials of a clone and on archives at concrete inputs.
use grabber.Base.{
  ◌↔◌, ◌⊎◌, true, false, List, [], ◌∷◌, ◌++◌, ◌≡◌, refl, none, some, ok, All, any, pos,
}
use grabber.Text.{
  contains, Bytes, codes, text_eq, has_prefix, trim_space, to_lower, fields_func, split,
}
use grabber.Net.Parse.{split_host_port}
use grabber.FilePath.{clean_stack, is_rooted}
use grabber.Settings.Types.{Settings}
use grabber.Extract.Engine.{Disk}
use grabber.Extract.Inside.{Lands}
use grabber.Netrc.{
  parse, parse_tokens, tokens, keyword, scan, on_machine, on_login, on_password, fields,
}
use grabber.Netrc.Entries.{find, entries, items}
use grabber.Netrc.Finds.{parse_tokens-find}
use grabber.Git.Url.{UrlPackage}
use grabber.Git.Auth.KnownHosts.{
  KnownNext, known, HostKeys, normalize_known_host, known_hosts_callback, accepts_host_key,
  add_lines, add_hosts, add_host_key,
}
use grabber.Git.Auth.Recorded.{recorded, accepts_host_key_iff}
use grabber.Git.Auth.{System, SshPackage, auth_offers}
use grabber.Git.Archive.{ArchiveNext, header, extract_archive}
use grabber.Git.Archive.Landing.{extract_archive-Lands}
use grabber.Git.Archive.Bounded.{IsWalkWithin, extract_archive-IsWalkWithin}
use grabber.Git.Archive.Request.{archive_authorization}
use grabber.Git.Auth.Policy.{KeepsPolicy}
use grabber.Git.Isolation.{isolated}
use grabber.Tests.Choices.{config, url, parse_url}

abbrev words : List Bytes
words =
    codes "default"
    ∷ codes "login"
    ∷ codes "anonymous"
    ∷ codes "machine"
    ∷ codes "git.example"
    ∷ codes "login"
    ∷ codes "u"
    ∷ codes "password"
    ∷ codes "p"
    ∷ []

parse_tokens-find_example :
    parse_tokens (codes "git.example") words ≡ find (codes "git.example") (entries (items words))
parse_tokens-find_example = parse_tokens-find (codes "git.example") words

macro_skipped :
    parse
      (codes "macdef m"
        ++ 10 ∷ codes "machine git.example"
        ++ 10 ∷ 10 ∷ codes "machine git.example login u password p")
      (codes "git.example")
    ≡ some record { name = codes "git.example"; login = codes "u"; password = codes "p" }
unfolding parse parse_tokens tokens scan split fields fields_func text_eq trim_space keyword
    on_password on_login on_machine
macro_skipped = refl

abbrev pkg : UrlPackage
pkg = record {
  parse_url = parse_url;
  parse_query = λ q. none;
  url_string = λ u. codes "https://git.example/org/repo";
}

abbrev lines : List KnownNext
lines = known (codes "|1|hashed" ∷ codes "[git.example]:2222" ∷ []) (codes "key") ∷ []

abbrev ssh : SshPackage
ssh = record { parses_key = λ k. true; known_lines = λ text. lines }

abbrev system : System
system = record {
  helper = λ protocol host user. some (codes "helped", codes "secret");
  agent = some (some (codes "identity" ∷ []));
  getenv = λ name. codes "token";
}

abbrev bare_system : System
bare_system = record { helper = λ protocol host user. none; agent = none; getenv = λ name. [] }

abbrev closed : Settings
closed = record config { no_system_fallback = true }

isolated_example :
    (auth_offers pkg ssh system closed (codes "https://git.example/org/repo")
      ≡ auth_offers pkg ssh bare_system closed (codes "https://git.example/org/repo"))
    × All KeepsPolicy (auth_offers pkg ssh system closed (codes "https://git.example/org/repo"))
    × (archive_authorization pkg system closed url
        ≡ archive_authorization pkg bare_system closed url)
isolated_example =
    isolated pkg ssh system bare_system closed (codes "https://git.example/org/repo") url refl

abbrev host_keys : HostKeys
host_keys = (codes "git.example", codes "key" ∷ []) ∷ []

lines_read : known_hosts_callback lines ≡ ok host_keys
unfolding known_hosts_callback add_lines add_hosts has_prefix add_host_key normalize_known_host
    split_host_port to_lower trim_space contains
lines_read = refl

accepts_host_key_iff_example :
    (accepts_host_key host_keys (codes "git.example:22") (codes "other") ≡ true) ↔ (
      (recorded (normalize_known_host (codes "git.example:22")) lines ≡ [])
      ⊎ (any
            (λ k. text_eq k (codes "other"))
            (recorded (normalize_known_host (codes "git.example:22")) lines)
          ≡ true))
accepts_host_key_iff_example =
    accepts_host_key_iff lines host_keys (codes "git.example:22") (codes "other") lines_read

abbrev disk : Disk
disk = record { mkdir_fails = λ path. false; create_fails = λ path. false }

abbrev archive : List ArchiveNext
archive =
    header record {
      name = codes "repo-1/a/b.txt";
      is_pax = false;
      is_dir = false;
      mode = 0o644;
      contents = record { size = 12; breaks = false };
    }
    ∷ header record {
      name = codes "repo-1/a/../../etc";
      is_pax = false;
      is_dir = false;
      mode = 0o644;
      contents = record { size = 12; breaks = false };
    }
    ∷ []

extract_archive-Lands_example :
    All
      (Lands (codes "/out"))
      (extract_archive disk (codes "/out") [] (pos 20) archive).0.extractor.effects
unfolding is_rooted
extract_archive-Lands_example =
    extract_archive-Lands (codes "/out") disk (cc) (unfold clean_stack in cc) refl [] (pos 20)
      archive

extract_archive-IsWalkWithin_example :
    IsWalkWithin 20 (extract_archive disk (codes "/out") (codes "a") (pos 20) archive)
extract_archive-IsWalkWithin_example =
    extract_archive-IsWalkWithin disk (codes "/out") (codes "a") 19 archive
