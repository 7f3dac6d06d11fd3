-- ===== src/Main/Panics.antt =====
-- When the command `ep` of main.go panics before the operator starts.
use wga.Base.{
  Bool, true, false, none, some, Option, List, [], ◌∷◌, Bytes, bytes, split, Outcome, ok, err,
  panic, ◌≡◌, refl, ◌↔◌, is_empty, if◌then◌else◌, ◌>>=◌, ap, ◌∙◌, sym, ◌≢◌,
}
use wga.Net.{IpNet, parse_cidr}
use wga.Main.{
  ServerEnvironment, ServerConfig, client_nets, service_nets_of, required, server_config,
}

-- Whether all of these parse as networks
pub are_nets : List Bytes → Bool
are_nets [] = true
are_nets (s ∷ ss) = elim (parse_cidr s) [ none ↦ false | some _ ↦ are_nets ss ]

-- The outcome of a loop over networks, with `bad` at one that does not parse
abbrev nets_or : Outcome (List IpNet) → Bool → List IpNet → Outcome (List IpNet)
nets_or bad b nets = if b then ok nets else bad

-- One network more, where `bad` ends the loop
one_more {ℓ} :
    {Ip : Type ℓ} (bad : Outcome (List IpNet)) (o : Option (Ip × IpNet)) (b : Bool)
    (nets : List IpNet) (rest : Outcome (List IpNet))
    → ((k : List IpNet → Outcome (List IpNet)) → (bad >>= k) ≡ bad)
    → rest ≡ nets_or bad b nets
    → (all : List IpNet) × ((elim o [ none ↦ bad | some (_, net) ↦ rest >>= λ ns. ok (net ∷ ns) ])
        ≡ nets_or bad (elim o [ none ↦ false | some _ ↦ b ]) all)
one_more bad none b nets rest ends e = ([], refl)
one_more bad (some (_, net)) true nets rest ends e =
    (net ∷ nets, ap (λ r. r >>= λ ns. ok (net ∷ ns)) e)
one_more bad (some (_, net)) false nets rest ends e =
    ([], ap (λ r. r >>= λ ns. ok (net ∷ ns)) e ∙ ends _)

client_nets-are_nets :
    (ss : List Bytes)
    → (nets : List IpNet) × (client_nets ss
        ≡ nets_or (err (bytes "cannot parse client cidr")) (are_nets ss) nets)
unfolding client_nets are_nets
client_nets-are_nets [] = ([], refl)
client_nets-are_nets (s ∷ ss) =
    let (nets, e) = client_nets-are_nets ss in
    one_more _ (parse_cidr s) (are_nets ss) nets (client_nets ss) (λ k. refl) e

service_nets_of-are_nets :
    (ss : List Bytes)
    → (nets : List IpNet) × (service_nets_of ss
        ≡ nets_or (panic (bytes "nil pointer dereference")) (are_nets ss) nets)
unfolding service_nets_of are_nets
service_nets_of-are_nets [] = ([], refl)
service_nets_of-are_nets (s ∷ ss) =
    let (nets, e) = service_nets_of-are_nets ss in
    one_more _ (parse_cidr s) (are_nets ss) nets (service_nets_of ss) (λ k. refl) e

-- The command from the loop over the service networks on
last_stage : List IpNet → Bytes → Bytes → List IpNet → Outcome ServerConfig
unfolding required split
last_stage peers address dns_text nets = do
  dns ← required (bytes "WGA_DNS_ADDRESSES not set") dns_text
  ok (record {
    service_nets = nets;
    peers_nets = peers;
    dns_servers = split b',' dns;
    server_addr = address;
  })

-- The command on the outcomes of its loops
stages :
    Outcome (List IpNet)
    → (Bytes → Outcome (List IpNet))
    → Bytes
    → Bytes
    → Bytes
    → Outcome ServerConfig
unfolding required last_stage
stages clients services address_text allowed_text dns_text = do
  peers ← clients
  address ← required (bytes "WGA_SERVER_ADDRESS not set") address_text
  allowed ← required (bytes "WGA_ALLOWED_IPS not set") allowed_text
  nets ← services allowed
  last_stage peers address dns_text nets

last_stage-returns :
    (peers : List IpNet) (address dns : Bytes) (nets : List IpNet) (why : Bytes)
    → (last_stage peers address dns nets) ≢ panic why
unfolding last_stage required
last_stage-returns peers address [] nets why h = cc
last_stage-returns peers address (_ ∷ _) nets why h = cc

abbrev clients_or : Bool → List IpNet → Outcome (List IpNet)
clients_or = nets_or (err (bytes "cannot parse client cidr"))

abbrev services_or : Bool → List IpNet → Outcome (List IpNet)
services_or = nets_or (panic (bytes "nil pointer dereference"))

stages-panics :
    (p q : Bool) (peers nets : List IpNet) (services : Bytes → Outcome (List IpNet))
    (address allowed dns : Bytes)
    → services allowed ≡ services_or q nets
    → ((why : Bytes) × (stages (clients_or p peers) services address allowed dns ≡ panic why))
      ↔ ((p ≡ true) × (is_empty address ≡ false) × (is_empty allowed ≡ false) × (q ≡ false))
unfolding stages required
stages-panics false q peers nets services address allowed dns e = ((λ h. cc), (λ h. cc))
stages-panics true q peers nets services [] allowed dns e = ((λ h. cc), (λ h. cc))
stages-panics true q peers nets services (_ ∷ _) [] dns e = ((λ h. cc), (λ h. cc))
stages-panics true false peers nets services (x ∷ xs) (_ ∷ _) dns e =
    ((λ h. (refl, refl, refl, refl)), (λ h. (_, ap (λ o. o >>= last_stage peers (x ∷ xs) dns) e)))
stages-panics true true peers nets services (x ∷ xs) (_ ∷ _) dns e = (
  (λ (why, h). absurd (
      last_stage-returns peers (x ∷ xs) dns nets why
        (sym (ap (λ o. o >>= last_stage peers (x ∷ xs) dns) e) ∙ h))),
  (λ h. cc),
)

-- Before it starts the operator, the command panics exactly when all client networks parse, the address
-- of the server and the service networks are set, and one of the service networks does not parse.
pub server_config-panics :
    (env : ServerEnvironment)
    → ((why : Bytes) × (server_config env ≡ panic why)) ↔ (
        (are_nets (split b',' env.client_cidr) ≡ true)
        × (is_empty env.server_address ≡ false)
        × (is_empty env.allowed_ips ≡ false)
        × (are_nets (split b',' env.allowed_ips) ≡ false))
unfolding server_config stages last_stage
server_config-panics env =
    let (peers, peers_lem) = client_nets-are_nets (split b',' env.client_cidr) in
    let (services, services_lem) = service_nets_of-are_nets (split b',' env.allowed_ips) in
    let nets_of : Bytes → Outcome (List IpNet) = λ text. service_nets_of (split b',' text) in
    let all_stages =
      stages-panics (are_nets (split b',' env.client_cidr)) (are_nets (split b',' env.allowed_ips))
        peers services nets_of env.server_address env.allowed_ips env.dns_addresses services_lem in
    let same =
      ap (λ c. stages c nets_of env.server_address env.allowed_ips env.dns_addresses) peers_lem in
    (
      (λ (why, e). all_stages.0 (why, sym same ∙ e)),
      (λ h. let (why, e) = all_stages.1 h in (why, same ∙ e)),
    )
