-- ===== src/Client.antt =====
-- src/client.rs and src/velkard_messages.rs: the messages to and from the node, and the templates
-- that it asks for and hands to the miner. Numbers of the protocol's errors are left out.
pub mod Devfund
pub mod Templates
pub mod Listening
use velkar_gpu.Base.{
  ℕ, zero, suc, ◌+◌, ◌%◌, ◌^◌, Bool, true, false, List, [], ◌∷◌, ◌++◌, Option, none, some, leb, ltb,
  if◌then◌else◌, Outcome, ok, err, panic, ◌>>=◌, Error, message, external,
}
use velkar_gpu.Word.{Bytes, u16, u64}
use velkar_gpu.Pow.Header.{RpcBlock}

-- The payloads that the miner sends.
pub data VelkardMessage (Body : Type 0) : Type 0 where
  get_info_request : VelkardMessage Body
  get_block_template_request : (pay_address extra_data : Bytes) → VelkardMessage Body
  submit_block_request :
      (block : Option (RpcBlock Body)) (allow_non_daa_blocks : Bool) → VelkardMessage Body
  notify_block_added_request : VelkardMessage Body
  notify_new_block_template_request : VelkardMessage Body

-- `VelkardMessage::submit_block`
abbrev pub submit_block : {Body : Type 0} → RpcBlock Body → VelkardMessage Body
submit_block block = submit_block_request (some block) false

-- The payloads that the node sends; an error is its message.
pub data Payload (Body : Type 0) : Type 0 where
  new_block_template_notification : Payload Body
  get_block_template_response :
      (block : Option (RpcBlock Body)) (is_synced : Bool) (error : Option Bytes) → Payload Body
  submit_block_response : (error : Option Bytes) → Payload Body
  get_block_response : (error : Option Bytes) → Payload Body
  get_info_response : Payload Body
  notify_new_block_template_response : (error : Option Bytes) → Payload Body
  other : Payload Body

pub record VelkardHandler (Body : Type 0) : Type 0 where
  pub sent : List (VelkardMessage Body)
  pub connected : Bool
  pub miner_address : Bytes
  pub mine_when_not_synced : Bool
  pub devfund_address : Option Bytes
  pub devfund_percent : ℕ
  pub block_template_ctr : ℕ
  pub extra_data : Bytes

module _ {Body : Type 0} where
  -- `connect`, once the connection stands.
  unfoldable pub connect : Bytes → Bool → Bytes → VelkardHandler Body
  connect miner_address mine_when_not_synced extra_data = record {
    sent = get_info_request ∷ get_block_template_request miner_address extra_data ∷ [];
    connected = true;
    miner_address = miner_address;
    mine_when_not_synced = mine_when_not_synced;
    devfund_address = none;
    devfund_percent = 0;
    block_template_ctr = 0;
    extra_data = extra_data;
  }

  unfoldable pub add_devfund : VelkardHandler Body → Bytes → ℕ → VelkardHandler Body
  add_devfund h address percent = record h {
    devfund_address = some address;
    devfund_percent = percent;
  }

  -- `client_send`; the receiver of a channel that is gone makes it fail.
  abbrev pub client_send : VelkardHandler Body → VelkardMessage Body → Outcome (VelkardHandler Body)
  client_send h msg =
      if h.connected then ok (record h { sent = h.sent ++ msg ∷ [] }) else err external

  -- The address that the next template pays.
  abbrev pub pay_address : Option Bytes → VelkardHandler Body → Bytes
  pay_address none h = h.miner_address
  pay_address (some devfund_address) h =
      if leb (u16 (h.block_template_ctr % 10000)) h.devfund_percent
      then devfund_address
      else h.miner_address

  unfoldable pub client_get_block_template : VelkardHandler Body → Outcome (VelkardHandler Body)
  client_get_block_template h =
      client_send (record h { block_template_ctr = u64 (h.block_template_ctr + 1) })
        (get_block_template_request (pay_address h.devfund_address h) h.extra_data)

-- The handler and the miner behind a message.
pub record Received (Body Miner : Type 0) : Type 0 where
  pub handler : VelkardHandler Body
  pub miner : Miner

-- A miner is a state and its `process_block`.
module _ {Body Miner : Type 0}
    (process_block : Miner → Option (RpcBlock Body) → Outcome Miner) where
  abbrev pub give :
      VelkardHandler Body → Miner → Option (RpcBlock Body) → Outcome (Received Body Miner)
  give h miner block = process_block miner block >>= λ m. ok (record { handler = h; miner = m })

  abbrev pub keep : VelkardHandler Body → Miner → Outcome (Received Body Miner)
  keep h miner = ok (record { handler = h; miner = miner })

  -- The match on `(template.block, template.is_synced, template.error)`.
  unfoldable pub handle_template :
      VelkardHandler Body
      → Miner
      → Option (RpcBlock Body)
      → Bool
      → Option Bytes
      → Outcome (Received Body Miner)
  handle_template h miner (some b) true none = give h miner (some b)
  handle_template h miner (some b) false none =
      if h.mine_when_not_synced then give h miner (some b) else give h miner none
  handle_template h miner none false none = give h miner none
  handle_template h miner none true none = keep h miner
  handle_template h miner block is_synced (some e) = keep h miner

  unfoldable pub handle_message :
      VelkardHandler Body → Miner → Payload Body → Outcome (Received Body Miner)
  unfolding handle_template
  handle_message h miner new_block_template_notification =
      client_get_block_template h >>= λ h'. ok (record { handler = h'; miner = miner })
  handle_message h miner (get_block_template_response block is_synced error) =
      handle_template h miner block is_synced error
  handle_message h miner (submit_block_response error) = keep h miner
  handle_message h miner (get_block_response none) = keep h miner
  handle_message h miner (get_block_response (some e)) = err external
  handle_message h miner get_info_response = keep h miner
  handle_message h miner (notify_new_block_template_response error) = keep h miner
  handle_message h miner other = keep h miner

  -- `Some(payload) => self.handle_message(payload, miner)`, or a warning
  abbrev pub handle_payload :
      VelkardHandler Body → Miner → Option (Payload Body) → Outcome (Received Body Miner)
  handle_payload h miner none = keep h miner
  handle_payload h miner (some payload) = handle_message h miner payload

-- What the stream gives to `listen`: a message, with the shutdown as it is read then, the end of the
-- stream, or its failure.
pub data Arrival (Body : Type 0) : Type 0 where
  message_arrived : (payload : Option (Payload Body)) (shutdown : Bool) → Arrival Body
  stream_ended : Arrival Body
  stream_failed : Arrival Body

module _ {Body Miner : Type 0}
    (process_block : Miner → Option (RpcBlock Body) → Outcome Miner) where
  -- `listen` over what arrives, up to where it returns or waits for more.
  unfoldable pub listen :
      VelkardHandler Body → Miner → List (Arrival Body) → Outcome (Received Body Miner)
  listen h miner [] = keep process_block h miner
  listen h miner (stream_ended ∷ arrivals) = keep process_block h miner
  listen h miner (stream_failed ∷ arrivals) = err external
  listen h miner (message_arrived payload true ∷ arrivals) = keep process_block h miner
  listen h miner (message_arrived payload false ∷ arrivals) =
      handle_payload process_block h miner payload >>= λ r. listen r.handler r.miner arrivals
