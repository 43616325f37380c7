-- ===== src/Settings/Network/Header.antt =====
-- The name in a Host header: `hostnameOf` of settings/envproxy.go.
use grabber.Base.{◌≡◌, refl, Option, none, some}
use grabber.Text.{Bytes}
use grabber.Net.{Ip}
use grabber.Net.Parse.{parse_ip, url_hostname}
use grabber.Net.Parse.Hostname.{WithoutPort, WithoutBrackets, url_hostname-cases}
use grabber.Settings.Network.{hostname_of}

-- The header is an address, which is the name; or it is the name, perhaps in brackets and before a
-- port.
pub data HeaderNames (header name : Bytes) : Type 0 where
  literal : (ip : Ip) → parse_ip header ≡ some ip → name ≡ header → HeaderNames header name
  authority :
      (inside : Bytes)
      → parse_ip header ≡ none
      → WithoutPort header inside
      → WithoutBrackets inside name
      → HeaderNames header name

pub hostname_of-HeaderNames : (header : Bytes) → HeaderNames header (hostname_of header)
unfolding hostname_of
hostname_of-HeaderNames header = by_literal (parse_ip header) refl
  where
    by_literal :
        (o : Option Ip)
        → parse_ip header ≡ o
        → HeaderNames header (elim o [ some ip ↦ header | none ↦ url_hostname header ])
    by_literal (some ip) e = literal ip e refl
    by_literal none e =
        let (inside, port, brackets) = url_hostname-cases header in authority inside e port brackets
