-- ===== src/Fetch.antt =====
-- fetch.rs: paying for a resource that answers 402. The answers of the web are a parameter, by attempt:
-- 0 is the first request, and the retries count from 1.
pub mod Guarded
use computermoney.Prelude.{
  ℕ, zero, suc, ◌+◌, ◌-◌, ◌<◌, Text, codes, text_eq, starts_with, length, take, Bool, true, false,
  ◌||◌, not, Option, none, some, List, [], ◌∷◌, ◌++◌, ltb, ◌==◌, if◌then◌else◌,
}
use computermoney.Policy.{daily_window_secs, is_mainnet, check_amount, check_address, Policy}
use computermoney.Result.{other, Result, ok, err, Exec, pure, raise, lift, gets, gate, ◌>>=◌, ◌>>◌}
use computermoney.Storage.{Host, network, network_label}
use computermoney.Chain.{Esplora}
use computermoney.Ledger.Balances.{spent_since}
use computermoney.Ledger.Platform.{Platform}
use computermoney.Ledger.Store.{World}
use computermoney.Ledger.Methods.{entries_of}
use computermoney.Build.{Bdk}
use computermoney.Pay.{Payer, sp_send}
use computermoney.Paywall.{Terms}

abbrev pub retries : ℕ
retries = 5

pub record Resp : Type 0 where
  pub status : ℕ
  pub body : Text

pub record FetchOut : Type 0 where
  pub status : ℕ
  pub body : Text
  pub paid : Option (Text × ℕ)

pub record Web : Type 0 where
  pub http_get : ℕ → Text → Option Text → Result Resp
  pub parse_terms : Text → Result Terms

unfoldable pub is_web_url : Text → Bool
is_web_url url = starts_with url (codes "http://") || starts_with url (codes "https://")

-- The prefix of a silent payment code on the network.
unfoldable pub want_hrp : Bool → Text
want_hrp true = codes "sp1"
want_hrp false = codes "tsp1"

unfoldable pub check_terms : Terms → ℕ → Text → Bool → Result (Unit {0})
check_terms terms max_sats net_label mainnet =
    if not (terms.cm402 == 1)
    then err (other (codes "unsupported cm402 version"))
    else if not (text_eq terms.network net_label)
    then err (other (codes "payment is for another network"))
    else if not (starts_with terms.pay_to (want_hrp mainnet))
    then err (other (codes "pay_to is not a silent-payment code"))
    else if ltb max_sats terms.sats
    then err (other (codes "price exceeds max_sats"))
    else ok tt

module _ ⦃web : Web⦄ where
  -- The retries that are left, from an attempt on, each with the payment as proof.
  unfoldable pub retry_from : ℕ → ℕ → Text → Text → ℕ → Exec World FetchOut
  retry_from zero attempt url txid sats = raise (other (codes "paid but still returned 402"))
  retry_from (suc n) attempt url txid sats = do
    resp ← lift (web.http_get attempt url (some txid))
    if resp.status == 200
        then pure (record { status = 200; body = resp.body; paid = some (txid, sats) })
        else retry_from n (attempt + 1) url txid sats

module _ ⦃h : Host⦄ ⦃p : Platform⦄ ⦃c : Esplora⦄ ⦃b : Bdk⦄ ⦃y : Payer⦄ ⦃web : Web⦄ where
  unfoldable pub standing_gates : Policy → Terms → Exec World (Unit {0})
  standing_gates policy terms = do
    es ← gets entries_of
    gate (check_amount policy terms.sats (spent_since (h.now_unix - daily_window_secs) es))
    gate (check_address policy terms.pay_to)

  -- From the body of a 402 on.
  unfoldable pub pay_and_retry : Text → Text → Text → ℕ → Text → Exec World FetchOut
  pay_and_retry ext int url max_sats body = do
    terms ← lift (web.parse_terms body)
    lift (check_terms terms max_sats network_label (is_mainnet network))
    policy ← lift h.load_policy
    standing_gates policy terms
    txid ← sp_send ext int terms.pay_to terms.sats policy.max_fee_sats
    retry_from retries 1 url txid terms.sats

  unfoldable pub on_first : Text → Text → Text → ℕ → Resp → Exec World FetchOut
  on_first ext int url max_sats first =
      if first.status == 200
      then pure (record { status = 200; body = first.body; paid = none })
      else if not (first.status == 402)
      then raise (other (codes "GET failed"))
      else pay_and_retry ext int url max_sats first.body

  unfoldable pub fetch : Text → Text → Text → ℕ → Exec World FetchOut
  fetch ext int url max_sats =
      if is_web_url url
      then (do first ← lift (web.http_get 0 url none); on_first ext int url max_sats first)
      else raise (other (codes "url must start with http:// or https://"))
