-- ===== src/Format/RoundTrip.antt =====
-- What a reader finds in the file of format.go.
use wga.Base.{
  ℕ, Bool, true, false, List, [], ◌∷◌, ◌++◌, ◌==◌, if◌then◌else◌, is_empty, Bytes, bytes, ◌≡◌, refl,
  ap, ◌∙◌, All, map, join, All-append,
}
use wga.Net.{IsLine, decimal_string, fixed_IsLine, join-IsLine, IpNet}
use wga.Format.Reader.{add_line, setting, section_name, read_lines, Section, read_file, lines}
use wga.Format.Lines.{
  lines_of, all_peer_lines, psk_lines, allowed_lines, keepalive_lines, format-spaced, lines-spaced,
}
use wga.WgTypes.{KeyCodec, Key}
use wga.Format.{
  seconds, FilePeer, ConfigFile, join_ip_nets, name_block, valid_key, endpoint_string, format,
}
use mathlib.Core.List.{append_assoc, append-nil}
use wga.Format.Printable.{setting-IsLine, name_block-IsLine, all_peer_lines-IsLine}

-- The settings of a peer that are there or not
abbrev psk_settings : KeyCodec → Key → List (Bytes × Bytes)
psk_settings kc k = if valid_key k then (bytes "PresharedKey", kc.key_string k) ∷ [] else []

abbrev allowed_settings : List IpNet → List (Bytes × Bytes)
allowed_settings ips =
    if is_empty ips then [] else (bytes "AllowedIPs", join_ip_nets ips (bytes ", ")) ∷ []

abbrev keepalive_settings : ℕ → List (Bytes × Bytes)
keepalive_settings d =
    if d == 0 then [] else (bytes "PersistentKeepalive", decimal_string (seconds d)) ∷ []

abbrev pub peer_section : KeyCodec → FilePeer → Section
peer_section kc p = record {
  name = bytes "Peer";
  settings =
      (bytes "Endpoint", endpoint_string p.endpoint)
      ∷ (bytes "PublicKey", kc.key_string p.public_key)
      ∷ (psk_settings kc p.preshared_key
          ++ (allowed_settings p.allowed_ips
              ++ keepalive_settings p.persistent_keepalive_interval));
}

-- What the file says of a configuration
abbrev pub sections_of : KeyCodec → ConfigFile → List Section
sections_of kc c =
    record {
      name = bytes "Interface";
      settings =
          (bytes "PrivateKey", kc.key_string c.private_key)
          ∷ (bytes "Address", c.address)
          ∷ (bytes "DNS", join (bytes ", ") c.dns)
          ∷ [];
    }
    ∷ map (peer_section kc) c.peers

-- A line adds a setting to what follows it.
abbrev Adds : Bytes → Bytes × Bytes → Type 0
Adds l kv =
    (after : List (Bytes × Bytes) × List Section) → add_line l after ≡ (kv ∷ after.0, after.1)

read_if :
    (b : Bool) (l : Bytes) (kv : Bytes × Bytes) (ls : List Bytes) (settings : List (Bytes × Bytes))
    (sections : List Section)
    → Adds l kv
    → read_lines ls ≡ (settings, sections)
    → read_lines ((if b then l ∷ [] else []) ++ ls)
      ≡ ((if b then kv ∷ [] else []) ++ settings, sections)
unfolding read_lines
read_if true l kv ls settings sections adds e = adds (read_lines ls) ∙ ap (λ r. (kv ∷ r.0, r.1)) e
read_if false l kv ls settings sections adds e = e

read_unless :
    (b : Bool) (l : Bytes) (kv : Bytes × Bytes) (ls : List Bytes) (settings : List (Bytes × Bytes))
    (sections : List Section)
    → Adds l kv
    → read_lines ls ≡ (settings, sections)
    → read_lines ((if b then [] else l ∷ []) ++ ls)
      ≡ ((if b then [] else kv ∷ []) ++ settings, sections)
unfolding read_lines
read_unless true l kv ls settings sections adds e = e
read_unless false l kv ls settings sections adds e =
    adds (read_lines ls) ∙ ap (λ r. (kv ∷ r.0, r.1)) e

read_optional :
    (kc : KeyCodec) (p : FilePeer) (ls : List Bytes) (sections : List Section)
    → read_lines ls ≡ ([], sections)
    → read_lines (
        (psk_lines kc p.preshared_key
          ++ (allowed_lines p.allowed_ips ++ keepalive_lines p.persistent_keepalive_interval))
        ++ ls)
      ≡ (
        psk_settings kc p.preshared_key
            ++ (allowed_settings p.allowed_ips
                ++ keepalive_settings p.persistent_keepalive_interval),
        sections,
      )
unfolding add_line setting
read_optional kc p ls sections e =
    let psk = psk_lines kc p.preshared_key in
    let allowed = allowed_lines p.allowed_ips in
    let keepalive = keepalive_lines p.persistent_keepalive_interval in
    let last =
      read_unless (p.persistent_keepalive_interval == 0) _
        (bytes "PersistentKeepalive", decimal_string (seconds p.persistent_keepalive_interval)) ls
        [] sections (λ after. refl) e in
    let middle =
      read_unless (is_empty p.allowed_ips) _
        (bytes "AllowedIPs", join_ip_nets p.allowed_ips (bytes ", ")) (keepalive ++ ls) _ sections
        (λ after. refl) last in
    let first =
      read_if (valid_key p.preshared_key) _ (bytes "PresharedKey", kc.key_string p.preshared_key)
        (allowed ++ (keepalive ++ ls)) _ sections (λ after. refl) middle in
    ap read_lines (
      append_assoc psk (allowed ++ keepalive) ls
      ∙ ap (λ x. psk ++ x) (append_assoc allowed keepalive ls))
    ∙ first
    ∙ ap (λ x. (psk_settings kc p.preshared_key ++ (allowed_settings p.allowed_ips ++ x), sections))
        (append-nil (keepalive_settings p.persistent_keepalive_interval))

read_peers :
    (kc : KeyCodec) (ps : List FilePeer)
    → read_lines (all_peer_lines kc ps ++ ([] ∷ [])) ≡ ([], map (peer_section kc) ps)
unfolding read_lines add_line setting section_name
read_peers kc [] = refl
read_peers kc (p ∷ ps) =
    let rest = all_peer_lines kc ps ++ ([] ∷ []) in
    let inner =
      psk_lines kc p.preshared_key
      ++ (allowed_lines p.allowed_ips ++ keepalive_lines p.persistent_keepalive_interval) in
    ap
      (λ r. (
        [],
        record {
          name = bytes "Peer";
          settings =
              (bytes "Endpoint", endpoint_string p.endpoint)
              ∷ (bytes "PublicKey", kc.key_string p.public_key)
              ∷ r.0;
        }
            ∷ r.1,
      ))
      (ap read_lines (append_assoc inner (all_peer_lines kc ps) ([] ∷ []))
        ∙ read_optional kc p rest (map (peer_section kc) ps) (read_peers kc ps))

-- The first line has no setting: it is empty or a comment.
read_name : (name : Bytes) (ls : List Bytes) → read_lines (name_block name ∷ ls) ≡ read_lines ls
unfolding read_lines name_block add_line
read_name [] ls = refl
read_name (c ∷ s) ls = refl

read-lines_of : (kc : KeyCodec) (c : ConfigFile) → (read_lines (lines_of kc c)).1 ≡ sections_of kc c
unfolding read_lines add_line setting section_name
read-lines_of kc c =
    ap
      (λ r.
        record {
          name = bytes "Interface";
          settings =
              (bytes "PrivateKey", kc.key_string c.private_key)
              ∷ (bytes "Address", c.address)
              ∷ (bytes "DNS", join (bytes ", ") c.dns)
              ∷ r.0;
        }
        ∷ r.1)
      (read_peers kc c.peers)

module _ (kc : KeyCodec) (printable : (k : Key) → IsLine (kc.key_string k)) where
  -- When no key, and neither the name, the address nor a DNS server, has a newline, a reader of the
  -- file finds what the configuration has: the interface with its private key, address and DNS
  -- servers, and one section for each peer, in order, with its endpoint and public key, the preshared
  -- key unless it is zero, the allowed networks if there are any, and the keepalive in seconds
  -- unless it is zero.
  pub read_file-format :
      (c : ConfigFile)
      → IsLine c.name
      → IsLine c.address
      → All IsLine c.dns
      → read_file (format kc c) ≡ sections_of kc c
  unfolding read_file
  read_file-format c named addressed dns =
      let all : All IsLine (lines_of kc c) = (
        (fixed_IsLine (bytes "[Interface]") refl),
        ((
          (setting-IsLine (bytes "PrivateKey = ") _ refl (printable c.private_key)),
          ((
            (setting-IsLine (bytes "Address = ") _ refl addressed),
            ((
              (setting-IsLine (bytes "DNS = ") _ refl
                  (join-IsLine (bytes ", ") c.dns (fixed_IsLine (bytes ", ") refl) dns)),
              (All-append IsLine (all_peer_lines kc c.peers) ([] ∷ [])
                  (all_peer_lines-IsLine kc printable c.peers) (tt, tt)),
            )),
          )),
        )),
      ) in
      let found : lines (format kc c) ≡ name_block c.name ∷ lines_of kc c =
        ap lines (format-spaced kc c)
        ∙ lines-spaced (name_block c.name) (lines_of kc c) (name_block-IsLine c.name named) all in
      ap (λ ls. (read_lines ls).1) found
      ∙ ap (λ r. r.1) (read_name c.name (lines_of kc c))
      ∙ read-lines_of kc c
