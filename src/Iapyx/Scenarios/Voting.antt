-- ===== src/Iapyx/Scenarios/Voting.antt =====
-- The theorems on the QR codes, the proxy and the votes of iapyx, each applied to a small input.
use vit_testing.Prelude.{
  ℕ, ◌+◌, ◌≡◌, ◌↔◌, refl, true, false, none, some, List, [], ◌∷◌, ◌++◌, length, get_elem?, Result,
  ok, err,
}
use mathlib.Core.List.{reverse}
use vit_testing.Prelude.Text.{Text, codes}
use vit_testing.Mock.Run.{returns}
use vit_testing.Iapyx.Qr.{Images, read_from_file_name, get_pin, read_qr, read_qrs}
use vit_testing.Iapyx.Qr.Pin.{with_pin, get_pin_iff}
use vit_testing.Iapyx.Qr.Reading.{collect, read_qrs-collect}
use vit_testing.Iapyx.Proxy.{
  ProxyServerStub, new_http, pass_on, block0_content, http_vit_address, route_url,
}
use vit_testing.Web.{all_clean}
use vit_testing.Web.Prefix.{prefix_urls, prefix_urls-KeepsPaths}
use vit_testing.Iapyx.Proxy.Routing.{route-vit_station}
use vit_testing.Iapyx.VitStation.{
  path_builder, version_path, proposals_path, funds_path, proposal_path, fund_path, genesis_path,
  graphql_path, health_path,
}
use vit_testing.Iapyx.Wallet.{Bytes, WalletCore, Wallet, set_state, id}
use vit_testing.Iapyx.Wallet as Wallet
use vit_testing.Iapyx.Backend.{NodeRest, account_state, send_fragments, send_fragments_at_once}
use vit_testing.Iapyx.Backend.Sending.{in_turn, send_fragments-in_turn}
use vit_testing.Iapyx.Load.{MultiController, votes_batch}
use vit_testing.Iapyx.Load.Counters.{AreVotesFrom, votes_batch-AreVotesFrom}

-- An image holds one key; the second file cannot be opened.
opened : Text → Result ℕ ℕ
opened [] = err 0
opened (_ ∷ _) = ok 1

abbrev images : Images
images = record {
  Image = ℕ;
  SecretKey = ℕ;
  ImageError = ℕ;
  KeyQrCodeError = ℕ;
  open_image = opened;
  decode = λ image pin. ok (7 ∷ []);
}

get_pin_iff_example :
    (get_pin images read_from_file_name (with_pin (codes "qr-codes/wallet") (codes "1234"))
      ≡ ok (codes "1234"))
    ↔ (length (codes "1234") ≡ 4)
get_pin_iff_example =
    get_pin_iff images (codes "qr-codes/wallet") (codes "1234") (refl, (refl, (refl, (refl, tt))))

read_qrs-collect_example :
    read_qrs images read_from_file_name (codes "a_1234.png" ∷ [] ∷ []) false
    ≡ collect (read_qr images read_from_file_name) (codes "a_1234.png" ∷ [] ∷ [])
read_qrs-collect_example =
    read_qrs-collect images read_from_file_name (codes "a_1234.png" ∷ [] ∷ [])

abbrev proxy : ProxyServerStub
proxy = new_http (codes "127.0.0.1:8000") (codes "127.0.0.1:3030") (codes "127.0.0.1:8080") (1 ∷ [])

abbrev local : Text
local = codes "127.0.0.1:8000"

route-vit_station_example :
    (route_url prefix_urls proxy local (funds_path (path_builder local))
      ≡ some (pass_on (http_vit_address proxy)))
    × (route_url prefix_urls proxy local (fund_path (path_builder local) (codes "1"))
        ≡ some (pass_on (http_vit_address proxy)))
    × (route_url prefix_urls proxy local (proposals_path (path_builder local))
        ≡ some (pass_on (http_vit_address proxy)))
    × (route_url prefix_urls proxy local (proposal_path (path_builder local) (codes "1"))
        ≡ some (pass_on (http_vit_address proxy)))
    × (route_url prefix_urls proxy local (genesis_path (path_builder local))
        ≡ some (block0_content proxy.block0))
    × (route_url prefix_urls proxy local (version_path (path_builder local)) ≡ none)
    × (route_url prefix_urls proxy local (graphql_path (path_builder local)) ≡ none)
    × (route_url prefix_urls proxy local (health_path (path_builder local)) ≡ none)
unfolding all_clean
route-vit_station_example =
    route-vit_station prefix_urls proxy local (codes "1")
      (prefix_urls-KeepsPaths (codes "//127.0.0.1:8000")) refl

-- A wallet is its counter, a vote's transaction is the proposal and the counter, and a fragment is its
-- bytes.
abbrev core : WalletCore
core = record {
  Inner = ℕ;
  InnerError = ℕ;
  Settings = ℕ;
  Proposal = ℕ;
  Value = ℕ;
  Choice = ℕ;
  Fragment = Bytes;
  FragmentId = Bytes;
  AccountId = ℕ;
  Address = ℕ;
  AccountIdentifier = ℕ;
  Conversion = List Bytes;
  Inputs = ℕ;
  error_text = λ e. [];
  recover = λ mnemonics password. ok 0;
  recover_free_keys = λ key keys. ok 0;
  account = λ d w. 0;
  id = λ w. 0;
  retrieve_funds = λ block0 w. (ok 0, w);
  convert = λ settings w. ([], w);
  transactions = λ c. c;
  deserialize = some;
  fragment_id = λ f. f;
  confirm_transaction = λ i w. w;
  pending_transactions = λ w. [];
  remove_pending_transaction = λ i w. (none, w);
  total_value = λ w. 0;
  set_state = λ value counter w. counter;
  vote = λ settings proposal choice w. (ok (proposal ∷ w ∷ []), w + 1);
  address_text = λ t a. [];
  identifier_of = λ t. some 0;
}

-- A node keeps what it is sent, and every account has the counter 5.
abbrev rest : NodeRest core
rest = record {
  Node = List Bytes;
  NodeError = ℕ;
  FragmentLog = ℕ;
  VotePlanStatus = ℕ;
  send_raw_fragment = λ tx node. (ok tt, node ++ tx ∷ []);
  send_raw_fragments = λ txs node. (ok tt, node ++ txs);
  send_fragment_batch = λ fs node. (ok tt, node ++ fs);
  fragment_logs = λ node. ok [];
  account_state = λ i node. ok (100, 5);
  account_state_raw = λ i node. ok [];
  vote_plan_statuses = λ node. ok [];
  transaction_is_ok = λ i node. true;
}

abbrev alice : Wallet core
alice = record { inner = 0 }

abbrev before : MultiController core rest
before = record { wallets = alice ∷ []; settings = 0; node = [] }

-- The last of two votes has the counter of the account, and is the first to be sent.
abbrev sent : List Bytes
sent = (20 ∷ 5 ∷ []) ∷ (10 ∷ 6 ∷ []) ∷ []

abbrev after_votes : MultiController core rest
after_votes = record { wallets = record { inner = 7 } ∷ []; settings = 0; node = sent }

votes_batch-AreVotesFrom_example :
    (w : Wallet core) × (value : ℕ) × (counter : ℕ) × (txs : List Bytes) × (get_elem? before.wallets
        0
      ≡ some w)
    × (account_state core rest (id core w) before.node ≡ ok (value, counter))
    × AreVotesFrom core rest before.settings value counter (reverse ((10, 1) ∷ (20, 2) ∷ [])) txs
    × (send_fragments_at_once core rest txs false before.node ≡ returns (ok sent, after_votes.node))
unfolding votes_batch Wallet.vote set_state account_state send_fragments_at_once id
votes_batch-AreVotesFrom_example =
    votes_batch-AreVotesFrom core rest 0 false ((10, 1) ∷ (20, 2) ∷ []) before after_votes sent refl

send_fragments-in_turn_example :
    send_fragments core rest sent [] ≡ returns (in_turn core rest sent [])
send_fragments-in_turn_example =
    send_fragments-in_turn core rest sent [] (((20 ∷ 5 ∷ []), refl), (((10 ∷ 6 ∷ []), refl), tt))
