-- ===== src/Format/Lines.antt =====
-- The lines of the file of format.go.
use wga.Base.{
  ℕ, Bool, true, false, Bool-cases, List, [], ◌∷◌, ◌++◌, ◌==◌, if◌then◌else◌, is_empty, Bytes,
  bytes, arith, ◌≡◌, refl, sym, ap, ◌∙◌, All, inl, inr, join,
}
use wga.Net.{IsLine, decimal_string, IpNet}
use wga.WgTypes.{Key, KeyCodec}
use wga.Format.{
  FilePeer, ConfigFile, format, name_block, psk_block, allowed_block, keepalive_block, peer_block,
  peer_blocks, valid_key, seconds, join_ip_nets, endpoint_string,
}
use wga.Format.Reader.{lines, push}
use mathlib.Core.List.{append-nil, append_assoc}

-- Each line after a newline
abbrev pub spaced : List Bytes → Bytes
spaced [] = []
spaced (l ∷ ls) = 10 ∷ (l ++ spaced ls)

pub spaced-++ : (ls ms : List Bytes) → spaced (ls ++ ms) ≡ spaced ls ++ spaced ms
spaced-++ [] ms = refl
spaced-++ (l ∷ ls) ms =
    ap (λ s. 10 ∷ s)
      (ap (λ s. l ++ s) (spaced-++ ls ms) ∙ sym (append_assoc l (spaced ls) (spaced ms)))

-- Two parts at a time
both_spaced :
    (ls ms : List Bytes) (s t : Bytes) → spaced ls ≡ s → spaced ms ≡ t → spaced (ls ++ ms) ≡ s ++ t
both_spaced ls ms s t e f = spaced-++ ls ms ∙ (ap (λ x. x ++ spaced ms) e ∙ ap (λ x. s ++ x) f)

pub lines-spaced :
    (l : Bytes) (ls : List Bytes) → IsLine l → All IsLine ls → lines (l ++ spaced ls) ≡ l ∷ ls
unfolding lines push
lines-spaced [] [] h hs = refl
lines-spaced [] (m ∷ ls) h (k, hs) = ap (λ x. [] ∷ x) (lines-spaced m ls k hs)
lines-spaced (c ∷ l) ls (differs, h) hs = elim (Bool-cases (c == 10)) [
  | inl newline ↦ absurd (differs (ground (arith, newline)))
  | inr other ↦ simp other (ap (push c) (lines-spaced l ls h hs))
]

-- The lines of a peer, the empty one before it included
abbrev pub psk_lines : KeyCodec → Key → List Bytes
psk_lines kc k = if valid_key k then (bytes "PresharedKey = " ++ kc.key_string k) ∷ [] else []

abbrev pub allowed_lines : List IpNet → List Bytes
allowed_lines ips =
    if is_empty ips then [] else (bytes "AllowedIPs = " ++ join_ip_nets ips (bytes ", ")) ∷ []

abbrev pub keepalive_lines : ℕ → List Bytes
keepalive_lines d =
    if d == 0 then [] else (bytes "PersistentKeepalive = " ++ decimal_string (seconds d)) ∷ []

abbrev pub peer_lines : KeyCodec → FilePeer → List Bytes
peer_lines kc p =
    []
    ∷ bytes "[Peer]"
    ∷ (bytes "Endpoint = " ++ endpoint_string p.endpoint)
    ∷ (bytes "PublicKey = " ++ kc.key_string p.public_key)
    ∷ (psk_lines kc p.preshared_key
        ++ (allowed_lines p.allowed_ips ++ keepalive_lines p.persistent_keepalive_interval))

abbrev pub all_peer_lines : KeyCodec → List FilePeer → List Bytes
all_peer_lines kc [] = []
all_peer_lines kc (p ∷ ps) = peer_lines kc p ++ all_peer_lines kc ps

-- All lines but the first
abbrev pub lines_of : KeyCodec → ConfigFile → List Bytes
lines_of kc c =
    bytes "[Interface]"
    ∷ (bytes "PrivateKey = " ++ kc.key_string c.private_key)
    ∷ (bytes "Address = " ++ c.address)
    ∷ (bytes "DNS = " ++ join (bytes ", ") c.dns)
    ∷ (all_peer_lines kc c.peers ++ ([] ∷ []))

if-spaced : (b : Bool) (l : Bytes) → spaced (if b then l ∷ [] else []) ≡ (if b then 10 ∷ l else [])
if-spaced true l = ap (λ s. 10 ∷ s) (append-nil l)
if-spaced false l = refl

unless-spaced :
    (b : Bool) (l : Bytes) → spaced (if b then [] else l ∷ []) ≡ (if b then [] else 10 ∷ l)
unless-spaced true l = refl
unless-spaced false l = ap (λ s. 10 ∷ s) (append-nil l)

peer_block-spaced : (kc : KeyCodec) (p : FilePeer) → peer_block kc p ≡ spaced (peer_lines kc p)
unfolding peer_block psk_block allowed_block keepalive_block
peer_block-spaced kc p =
    let rest =
      both_spaced (psk_lines kc p.preshared_key)
        (allowed_lines p.allowed_ips ++ keepalive_lines p.persistent_keepalive_interval)
        (psk_block kc p.preshared_key)
        (allowed_block p.allowed_ips ++ keepalive_block p.persistent_keepalive_interval)
        (if-spaced (valid_key p.preshared_key) _)
        (both_spaced (allowed_lines p.allowed_ips) (keepalive_lines p.persistent_keepalive_interval)
          (allowed_block p.allowed_ips) (keepalive_block p.persistent_keepalive_interval)
          (unless-spaced (is_empty p.allowed_ips) _)
          (unless-spaced (p.persistent_keepalive_interval == 0) _)) in
    ap
      (λ s.
        bytes "\n\n[Peer]\nEndpoint = "
        ++ (endpoint_string p.endpoint
            ++ (bytes "\nPublicKey = " ++ (kc.key_string p.public_key ++ s))))
      (sym rest)

peer_blocks-spaced :
    (kc : KeyCodec) (ps : List FilePeer) → peer_blocks kc ps ≡ spaced (all_peer_lines kc ps)
unfolding peer_blocks
peer_blocks-spaced kc [] = refl
peer_blocks-spaced kc (p ∷ ps) = sym (
    both_spaced (peer_lines kc p) (all_peer_lines kc ps) (peer_block kc p) (peer_blocks kc ps)
      (sym (peer_block-spaced kc p)) (sym (peer_blocks-spaced kc ps)))

pub format-spaced :
    (kc : KeyCodec) (c : ConfigFile) → format kc c ≡ name_block c.name ++ spaced (lines_of kc c)
unfolding format
format-spaced kc c =
    let rest =
      both_spaced (all_peer_lines kc c.peers) ([] ∷ []) (peer_blocks kc c.peers) (bytes "\n")
        (sym (peer_blocks-spaced kc c.peers)) refl in
    ap
      (λ s.
        name_block c.name
        ++ (bytes "\n[Interface]\nPrivateKey = "
            ++ (kc.key_string c.private_key
                ++ (bytes "\nAddress = "
                    ++ (c.address ++ (bytes "\nDNS = " ++ (join (bytes ", ") c.dns ++ s)))))))
      (sym rest)
