-- ===== src/Storage.antt =====
-- storage.rs: the environment, the network and its endpoints, and which identity acts.
pub mod Choice
pub mod Seed
pub mod Load
pub mod Create
use computermoney.Prelude.{
  ℕ, Text, codes, text_eq, trim, to_lower, starts_with, contains, length, leb, Bool, true, false,
  Option, none, some, List, [], ◌∷◌, ◌++◌, map, if◌then◌else◌, ◌&&◌, ◌||◌, ◌==◌,
}
use computermoney.Policy.{Network, bitcoin, testnet, signet, Policy}
use computermoney.Result.{other, Result, ok, err}

-- What the process reads around it: `std::env::var`, the clock, and the policy file through
-- `Policy::load`.
pub record Host : Type 0 where
  pub var : Text → Option Text
  pub now_unix : ℕ
  pub load_policy : Result Policy

unfoldable pub unwrap_or_default : Option Text → Text
unwrap_or_default none = []
unwrap_or_default (some t) = t

unfoldable pub network_of : Text → Network
network_of label =
    let l = map to_lower (trim label) in
    if text_eq l (codes "testnet")
    then testnet
    else if text_eq l (codes "signet")
    then signet
    else bitcoin

unfoldable pub label_of : Network → Text
label_of testnet = codes "testnet"
label_of signet = codes "signet"
label_of bitcoin = codes "mainnet"

unfoldable pub default_endpoint : Network → Text
default_endpoint testnet = codes "https://blockstream.info/testnet/api"
default_endpoint signet = codes "https://mutinynet.com/api"
default_endpoint bitcoin = codes "https://blockstream.info/api"

unfoldable pub explorer_base : Network → Text
explorer_base testnet = codes "https://mempool.space/testnet/tx/"
explorer_base signet = codes "https://mutinynet.com/tx/"
explorer_base bitcoin = codes "https://mempool.space/tx/"

-- A value that is set and not empty after trimming.
unfoldable pub trimmed : Option Text → Option Text
trimmed none = none
trimmed (some t) = elim (trim t) [ [] ↦ none | c ∷ cs ↦ some (c ∷ cs) ]

unfoldable pub or_else : Option Text → Text → Text
or_else none d = d
or_else (some t) d = t

abbrev ends_in_slash : Text → Bool
ends_in_slash [] = true
ends_in_slash (c ∷ []) = c == b'/'
ends_in_slash (c ∷ d ∷ cs) = ends_in_slash (d ∷ cs)

-- `PathBuf::push` of a relative name: no separator after an empty path or a slash.
unfoldable pub join : Text → Text → Text
join path name = if ends_in_slash path then path ++ name else path ++ (b'/' ∷ name)

module _ ⦃h : Host⦄ where
  unfoldable pub network : Network
  unfolding network_of unwrap_or_default
  network = network_of (unwrap_or_default (h.var (codes "CM_NETWORK")))

  unfoldable pub network_label : Text
  network_label = label_of network

  unfoldable pub esplora_endpoint : Text
  esplora_endpoint = or_else (trimmed (h.var (codes "CM_ESPLORA"))) (default_endpoint network)

  unfoldable pub explorer_tx_url : Text → Text
  explorer_tx_url txid = explorer_base network ++ txid

  -- `config_root`: the override if it is set, and the home directory's otherwise.
  unfoldable pub config_root : Text
  config_root = or_else (trimmed (h.var (codes "CM_HOME"))) (
      join (join (unwrap_or_default (h.var (codes "HOME"))) (codes ".config"))
        (codes "computermoney"))

  unfoldable pub config_path : Text → Text → Text
  config_path env_key file = or_else (h.var env_key) (join config_root file)

abbrev is_hex_digit : ℕ → Bool
is_hex_digit c = (leb b'0' c && leb c b'9') || (leb b'a' c && leb c b'f')

unfoldable pub all_hex : Text → Bool
all_hex [] = true
all_hex (c ∷ cs) = is_hex_digit c && all_hex cs

-- `String`'s order.
unfoldable pub text_leb : Text → Text → Bool
text_leb [] t = true
text_leb (a ∷ s) [] = false
text_leb (a ∷ s) (b ∷ t) = if a == b then text_leb s t else leb a b

unfoldable pub insert_id : Text → List Text → List Text
insert_id id [] = id ∷ []
insert_id id (i ∷ ids) =
    let rest = insert_id id ids in if text_leb id i then id ∷ i ∷ ids else i ∷ rest

-- The names of the directories under the root that are identities, sorted.
unfoldable pub wallet_ids : List Text → List Text
wallet_ids [] = []
wallet_ids (n ∷ ns) =
    let rest = wallet_ids ns in if length n == 8 && all_hex n then insert_id n rest else rest

-- Whether `CM_ID`, trimmed, selects an identity: by a prefix, or by a name that the identity begins.
unfoldable pub selects : Text → Text → Bool
selects want id = if leb 8 (length want) then starts_with want id else starts_with id want

unfoldable pub hits : Text → List Text → List Text
hits want [] = []
hits want (id ∷ ids) = let rest = hits want ids in if selects want id then id ∷ rest else rest

unfoldable pub sole : Text → Text → List Text → Result Text
sole nothing several [] = err (other nothing)
sole nothing several (id ∷ []) = ok id
sole nothing several (id ∷ i ∷ ids) = err (other several)

unfoldable pub pick_default : List Text → Option Text → Result Text
pick_default ids none = sole (codes "no wallet") (codes "several identities") ids
pick_default ids (some d) =
    if contains (trim d) ids
    then ok (trim d)
    else sole (codes "no wallet") (codes "several identities") ids

unfoldable pub pick_identity : List Text → Option Text → Option Text → Result Text
pick_identity ids none default = pick_default ids default
pick_identity ids (some want) default =
    sole (codes "matches no identity") (codes "ambiguous") (hits (trim want) ids)
