-- ===== src/Sync/Clients/Laws.antt =====
-- The clients of a device after a synchronisation, counted by address.
use nut_webgui.Prelude.{
  subst, ◌↔◌, ◌≡◌, refl, ap, ℕ, zero, suc, ◌+◌, ◌-◌, [], ◌∷◌, ◌++◌, List, Bool, true, false,
  Bool-cases, inl, inr, if◌then◌else◌, Option, Option-cases, none, some, arith,
}
use nut_webgui.Upsmc.Text.{Bytes}
use nut_webgui.Sync.State.{IpAddr, ip_eq, ip_eq_iff, ClientInfo, client_info}
use nut_webgui.Sync.Clients.{
  contains_ip, has_client, disconnected, connected, position, last_of, but_last, swap_remove,
  detach, detach_all, attach_all, sync_clients,
}

abbrev pub one_if : Bool → ℕ
one_if true = 1
one_if false = 0

-- The entries of an address.
abbrev pub count : IpAddr → List ClientInfo → ℕ
count a [] = 0
count a (c ∷ cs) = one_if (ip_eq c.addr a) + count a cs

abbrev pub count_ip : IpAddr → List IpAddr → ℕ
count_ip a [] = 0
count_ip a (x ∷ xs) = one_if (ip_eq x a) + count_ip a xs

count-last :
    (a : IpAddr) (c : ClientInfo) (cs : List ClientInfo)
    → one_if (ip_eq (last_of c cs).addr a) + count a (but_last c cs) ≡ count a (c ∷ cs)
unfolding last_of but_last
count-last a c [] = omega arith
count-last a c (d ∷ ds) = omega (arith, count-last a d ds)

position_zero :
    (ip : IpAddr) (c : ClientInfo) (cs : List ClientInfo)
    → position ip (c ∷ cs) ≡ some 0
    → c.addr ≡ ip
unfolding position
position_zero ip c cs h = elim (Bool-cases (ip_eq c.addr ip)) [
  | inl e ↦ (ip_eq_iff c.addr ip).0 e
  | inr e ↦ elim (Option-cases (position ip cs)) [
    | inl n ↦ ground arith
    | inr (i, p) ↦ ground arith
  ]
]

position_suc :
    (ip : IpAddr) (i : ℕ) (c : ClientInfo) (cs : List ClientInfo)
    → position ip (c ∷ cs) ≡ some (suc i)
    → position ip cs ≡ some i
unfolding position
position_suc ip i c cs h = elim (Option-cases (position ip cs)) [
  | inl n ↦ ground arith
  | inr (j, p) ↦ ground arith
]

-- Nothing is left to look for.
position_none : (ip : IpAddr) (cs : List ClientInfo) → position ip cs ≡ none → count ip cs ≡ 0
unfolding position
position_none ip [] h = refl
position_none ip (c ∷ cs) h = elim (Option-cases (position ip cs)) [
  | inl n ↦ ground (arith, position_none ip cs n)
  | inr (j, p) ↦ ground arith
]

count-swap_remove :
    (a ip : IpAddr) (i : ℕ) (cs : List ClientInfo)
    → position ip cs ≡ some i
    → count a (swap_remove i cs) + one_if (ip_eq ip a) ≡ count a cs
unfolding swap_remove
count-swap_remove a ip i [] h = unfold position in cc
count-swap_remove a ip zero (c ∷ []) h =
    let e = ap (λ x. one_if (ip_eq x a)) (position_zero ip c [] h) in omega arith
count-swap_remove a ip zero (c ∷ (d ∷ ds)) h =
    let e = ap (λ x. one_if (ip_eq x a)) (position_zero ip c (d ∷ ds) h) in
    omega (arith, count-last a d ds)
count-swap_remove a ip (suc i) (c ∷ cs) h =
    omega (arith, count-swap_remove a ip i cs (position_suc ip i c cs h))

count-detach :
    (a ip : IpAddr) (cs : List ClientInfo)
    → count a (detach ip cs) ≡ count a cs - one_if (ip_eq ip a)
unfolding detach
count-detach a ip cs = elim (Option-cases (position ip cs)) [
  | inl n ↦
      let gone = position_none ip cs n in
      rw (detach, n)
        (elim (Bool-cases (ip_eq ip a)) [
          | inl e ↦
              let none_left : count a cs ≡ 0 =
                subst (λ x. count x cs ≡ 0) ((ip_eq_iff ip a).0 e) gone in
              rw e (omega arith)
          | inr e ↦ rw e (omega arith)
        ])
  | inr (i, p) ↦ rw (detach, p) (omega (arith, count-swap_remove a ip i cs p))
]

count-detach_all :
    (a : IpAddr) (ips : List IpAddr) (cs : List ClientInfo)
    → count a (detach_all ips cs) ≡ count a cs - count_ip a ips
unfolding detach_all
count-detach_all a [] cs = omega arith
count-detach_all a (ip ∷ ips) cs =
    omega (arith, count-detach_all a ips (detach ip cs), count-detach a ip cs)

count-append : (a : IpAddr) (xs ys : List ClientInfo) → count a (xs ++ ys) ≡ count a xs + count a ys
count-append a [] ys = omega arith
count-append a (x ∷ xs) ys = omega (arith, count-append a xs ys)

count-attach_all :
    (lookup_ip : IpAddr → Option Bytes) (a : IpAddr) (ips : List IpAddr) (cs : List ClientInfo)
    → count a (attach_all lookup_ip ips cs) ≡ count a cs + count_ip a ips
unfolding attach_all client_info
count-attach_all lookup_ip a [] cs = omega arith
count-attach_all lookup_ip a (ip ∷ ips) cs =
    let c = client_info lookup_ip ip in
    omega (arith, count-attach_all lookup_ip a ips (cs ++ (c ∷ [])), count-append a cs (c ∷ []))

-- Of the entries of an address, all are reported as gone or none.
count_ip-disconnected :
    (a : IpAddr) (source : List ClientInfo) (target : List IpAddr)
    → count_ip a (disconnected source target) ≡ (if contains_ip target a then 0 else count a source)
unfolding disconnected
count_ip-disconnected a [] target = elim (Bool-cases (contains_ip target a)) [
  | inl e ↦ rw e refl
  | inr e ↦ rw e refl
]
count_ip-disconnected a (old ∷ source) target = elim (Bool-cases (ip_eq old.addr a)) [
  | inl e ↦
      let same = ap (contains_ip target) ((ip_eq_iff old.addr a).0 e) in
      ground (arith, count_ip-disconnected a source target)
  | inr e ↦ ground (arith, count_ip-disconnected a source target)
]

count_ip-connected :
    (a : IpAddr) (source : List ClientInfo) (target : List IpAddr)
    → count_ip a (connected source target) ≡ (if has_client source a then 0 else count_ip a target)
unfolding connected
count_ip-connected a source [] = elim (Bool-cases (has_client source a)) [
  | inl e ↦ rw e refl
  | inr e ↦ rw e refl
]
count_ip-connected a source (new ∷ target) = elim (Bool-cases (ip_eq new a)) [
  | inl e ↦
      let same = ap (has_client source) ((ip_eq_iff new a).0 e) in
      ground (arith, count_ip-connected a source target)
  | inr e ↦ ground (arith, count_ip-connected a source target)
]

has_client-count :
    (a : IpAddr) (cs : List ClientInfo) → (has_client cs a ≡ false) ↔ (count a cs ≡ 0)
unfolding has_client
has_client-count a [] = (λ _. refl, λ _. refl)
has_client-count a (c ∷ cs) = ground (arith, has_client-count a cs)

contains_ip-count :
    (a : IpAddr) (xs : List IpAddr) → (contains_ip xs a ≡ false) ↔ (count_ip a xs ≡ 0)
unfolding contains_ip
contains_ip-count a [] = (λ _. refl, λ _. refl)
contains_ip-count a (x ∷ xs) = ground (arith, contains_ip-count a xs)

-- An address keeps its entries if it is listed, loses all of them if it is not, and has as many as
-- it is listed if it had none.
pub count-sync_clients :
    (lookup_ip : IpAddr → Option Bytes) (a : IpAddr) (source : List ClientInfo)
    (target : List IpAddr)
    → count a (sync_clients lookup_ip source target) ≡ (
        if has_client source a
        then (if contains_ip target a then count a source else 0)
        else count_ip a target)
unfolding sync_clients
count-sync_clients lookup_ip a source target = ground (
  arith,
  count-attach_all lookup_ip a (connected source target)
      (detach_all (disconnected source target) source),
  count-detach_all a (disconnected source target) source,
  count_ip-disconnected a source target,
  count_ip-connected a source target,
  has_client-count a source,
  contains_ip-count a target,
)

-- After a synchronisation the attached addresses are the listed ones.
pub has_client-sync_clients :
    (lookup_ip : IpAddr → Option Bytes) (a : IpAddr) (source : List ClientInfo)
    (target : List IpAddr)
    → has_client (sync_clients lookup_ip source target) a ≡ contains_ip target a
has_client-sync_clients lookup_ip a source target = ground (
  arith,
  count-sync_clients lookup_ip a source target,
  has_client-count a (sync_clients lookup_ip source target),
  has_client-count a source,
  contains_ip-count a target,
)
