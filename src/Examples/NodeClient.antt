-- ===== src/Examples/NodeClient.antt =====
-- The theorems on the client of the node at concrete messages.
use velkar_gpu.Base.{
  ℕ, ◌+◌, min, ◌≡◌, refl, arith, true, false, List, [], ◌∷◌, Option, none, some, Outcome, ok,
}
use velkar_gpu.Text.{codes}
use velkar_gpu.Pow.Header.{RpcBlock}
use velkar_gpu.Client
use velkar_gpu.Client.{
  VelkardHandler, VelkardMessage, Received, Arrival, handle_message, client_get_block_template,
  message_arrived, new_block_template_notification, get_block_template_response,
  get_block_template_request,
}
use velkar_gpu.Client.Listening.{obey_all, heard, notified, listen-heard}
use velkar_gpu.Client.Devfund.{ask, paying, ask-paying}
use velkar_gpu.Examples.Stub.{some_block}

abbrev node_client : VelkardHandler ℕ
node_client = record {
  sent = [];
  connected = true;
  miner_address = codes "velkar:miner";
  mine_when_not_synced = false;
  devfund_address = some (codes "velkar:fund");
  devfund_percent = 100;
  block_template_ctr = 0;
  extra_data = codes "1.0";
}

devfund_example :
    (sent : List (VelkardMessage ℕ)) × (ask 10000 node_client
      ≡ ok (record node_client { sent = sent; block_template_ctr = 10000 }))
    × (paying (codes "velkar:fund") sent ≡ 0 + min 10000 101)
devfund_example =
    ask-paying node_client (codes "velkar:fund") refl refl refl refl 10000 (omega arith)

abbrev keep_block :
    List (Option (RpcBlock ℕ)) → Option (RpcBlock ℕ) → Outcome (List (Option (RpcBlock ℕ)))
keep_block seen b = ok (b ∷ seen)

-- The node announces a template, sends one without sync and one with it, and the miner shuts down.
abbrev some_arrivals : List (Arrival ℕ)
some_arrivals =
    message_arrived (some new_block_template_notification) false
    ∷ message_arrived (some (get_block_template_response (some some_block) false none)) false
    ∷ message_arrived none false
    ∷ message_arrived (some (get_block_template_response (some some_block) true none)) false
    ∷ message_arrived (some new_block_template_notification) true
    ∷ []

abbrev listened : Received ℕ (List (Option (RpcBlock ℕ)))
listened = record {
  handler = record node_client {
    sent = get_block_template_request (codes "velkar:fund") (codes "1.0") ∷ [];
    block_template_ctr = 1;
  };
  miner = some some_block ∷ none ∷ [];
}

listened_run : Client.listen keep_block node_client [] some_arrivals ≡ ok listened
unfolding Client.listen handle_message client_get_block_template
listened_run = refl

listen-heard_example :
    (obey_all keep_block [] (heard false some_arrivals) ≡ ok (some some_block ∷ none ∷ []))
    × (1 ≡ 0 + notified some_arrivals)
listen-heard_example = listen-heard keep_block node_client [] some_arrivals listened listened_run
