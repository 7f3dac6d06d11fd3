-- ===== src/Nft/Setup.antt =====
-- `checkOrCreateTable` and `checkOrCreateWGAIngressChain` of operator/nft.go.
use wga.Base.{
  Bool, true, false, ◌&&◌, Option, none, some, List, [], ◌∷◌, if◌then◌else◌, Bytes, bytes, bytes_eq,
  Outcome, ok, err, ℕ, ◌≡◌, arith, get_or, bytes_eq_iff,
}

-- `nftables.Table`, with the number of its family
pub record Table : Type 0 where
  pub name : Bytes
  pub family : ℕ

-- `nftables.Chain`, with the name of its table
pub record Chain : Type 0 where
  pub name : Bytes
  pub table : Bytes

-- `TableFamilyNetdev`
abbrev pub netdev : ℕ
netdev = 5

abbrev pub wga_table : Table
wga_table = record { name = bytes "wga"; family = netdev }

find_table : List Table → Option Table
find_table [] = none
find_table (t ∷ ts) =
    let rest = find_table ts in if bytes_eq t.name (bytes "wga") then some t else rest

table_or_new : Option Table → Bool → Outcome Table
table_or_new (some t) flushes = ok t
table_or_new none flushes = if flushes then ok wga_table else err (bytes "Flush")

-- `tables` is the answer of `ListTables`. The family of a table that is found is not looked at.
unfoldable pub check_or_create_table : Option (List Table) → Bool → Outcome Table
unfolding find_table table_or_new
check_or_create_table none flushes = err (bytes "ListTables")
check_or_create_table (some tables) flushes = table_or_new (find_table tables) flushes

unfoldable pub find_chain : Table → Bytes → List Chain → Option Chain
find_chain table device [] = none
find_chain table device (c ∷ cs) =
    let rest = find_chain table device cs in
    if bytes_eq c.name device && bytes_eq c.table table.name then some c else rest

-- After `nft add chain` the chains are listed again; a chain that is missing then is nil, with no
-- error.
chain_or_new : Option Chain → Bool → Option (List Chain) → Table → Bytes → Outcome (Option Chain)
unfolding find_chain
chain_or_new (some c) added again table device = ok (some c)
chain_or_new none false again table device = err (bytes "nft add chain")
chain_or_new none true none table device = err (bytes "ListChains")
chain_or_new none true (some chains) table device = ok (find_chain table device chains)

unfoldable pub check_or_create_chain :
    Option (List Chain) → Bool → Option (List Chain) → Table → Bytes → Outcome (Option Chain)
unfolding chain_or_new
check_or_create_chain none added again table device = err (bytes "ListChains")
check_or_create_chain (some chains) added again table device =
    chain_or_new (find_chain table device chains) added again table device

find_table_named :
    (tables : List Table) (t : Table) → find_table tables ≡ some t → t.name ≡ bytes "wga"
unfolding find_table
find_table_named [] t e = cc
find_table_named (x ∷ xs) t e =
    ground (arith, bytes_eq_iff x.name (bytes "wga"), find_table_named xs t)

-- The table that the rules go to is called "wga".
pub table_named :
    (tables : Option (List Table)) (flushes : Bool) (t : Table)
    → check_or_create_table tables flushes ≡ ok t
    → t.name ≡ bytes "wga"
unfolding check_or_create_table table_or_new
table_named none flushes t e = cc
table_named (some tables) flushes t e = ground (arith, find_table_named tables t)

find_chain_named :
    (table : Table) (device : Bytes) (chains : List Chain) (c : Chain)
    → find_chain table device chains ≡ some c
    → c.name ≡ device
unfolding find_chain
find_chain_named table device [] c e = cc
find_chain_named table device (x ∷ xs) c e =
    ground (arith, bytes_eq_iff x.name device, find_chain_named table device xs c)

-- The chain that the rules go to has the device's name.
pub chain_named :
    (chains again : Option (List Chain)) (added : Bool) (table : Table) (device : Bytes) (c : Chain)
    → check_or_create_chain chains added again table device ≡ ok (some c)
    → c.name ≡ device
unfolding check_or_create_chain chain_or_new
chain_named none again added table device c e = cc
chain_named (some chains) again added table device c e = ground (
  arith,
  find_chain_named table device chains c,
  find_chain_named table device (get_or again []) c,
)
