-- ===== src/Ssrf/Dialing.antt =====
-- Which connections the guard lets through at the time they are made.
use grabber.Base.{
  ◌↔◌, Bool, true, false, ◌≡◌, inl, inr, refl, Option, none, some, ok, Bool-cases, arith,
}
use grabber.Text.{Bytes}
use grabber.Net.{Ip}
use grabber.Net.Parse.{parse_ip}
use grabber.Ssrf.{
  Guard, enabled, host_allowed, blocked, host_of, check_literal, control_ip, control, exempted,
  dial,
}

-- Why a connection may be made: the guard is off, the dialed host is exempt or on the allow list,
-- or the address that is connected to is an IP address that is not blocked.
pub data DialPermitted (g : Guard) (exempt : Option (Bytes → Bool)) (addr address : Bytes)
    : Type 0 where
  guard_off : enabled g ≡ false → DialPermitted g exempt addr address
  host_exempt : exempted exempt addr ≡ true → DialPermitted g exempt addr address
  host_listed : host_allowed g (host_of addr) ≡ true → DialPermitted g exempt addr address
  open_address :
      (ip : Ip)
      → parse_ip (host_of address) ≡ some ip
      → blocked g ip ≡ false
      → DialPermitted g exempt addr address

control_ip-eq-ok :
    (g : Guard) (address host : Bytes) (o : Option Ip)
    → control_ip g address host o ≡ ok tt
    → (ip : Ip) × (o ≡ some ip) × (blocked g ip ≡ false)
unfolding control_ip check_literal
control_ip-eq-ok g address host none h = absurd (cc h)
control_ip-eq-ok g address host (some ip) h = (ip, refl, ground arith)

control-of-open :
    (g : Guard) (address : Bytes) (ip : Ip)
    → parse_ip (host_of address) ≡ some ip
    → blocked g ip ≡ false
    → control g address ≡ ok tt
unfolding control control_ip check_literal
control-of-open g address ip e f = rw (e, f) refl

-- A connection is let through exactly if the guard is off, the host is exempt or allowed, or the
-- address that the name resolved to at that moment is one that the guard does not block.
pub dial_iff :
    (g : Guard) (exempt : Option (Bytes → Bool)) (addr address : Bytes)
    → (dial g exempt addr address ≡ ok tt) ↔ DialPermitted g exempt addr address
unfolding dial
dial_iff g exempt addr address = (there, back)
  where
    checked : control g address ≡ ok tt → DialPermitted g exempt addr address
    checked h =
        let (ip, e, f) =
          control_ip-eq-ok g address (host_of address) (parse_ip (host_of address))
            (unfold control in h) in
        open_address ip e f

    there : dial g exempt addr address ≡ ok tt → DialPermitted g exempt addr address
    there h = elim (Bool-cases (enabled g)) [
      | inr off ↦ guard_off off
      | inl on ↦ elim (Bool-cases (exempted exempt addr)) [
        | inl e ↦ host_exempt e
        | inr e ↦ elim (Bool-cases (host_allowed g (host_of addr))) [
          | inl l ↦ host_listed l
          | inr l ↦ checked (rw (on, e, l) at h)
        ]
      ]
    ]

    back : DialPermitted g exempt addr address → dial g exempt addr address ≡ ok tt
    back (guard_off off) = rw off refl
    back (host_exempt e) = ground (arith, e)
    back (host_listed l) = ground (arith, l)
    back (open_address ip e f) = ground (arith, control-of-open g address ip e f)
