-- ===== src/Client/Templates.antt =====
-- Which templates of the node reach the miner.
use velkar_gpu.Base.{
  ◌≡◌, refl, Bool, true, false, ◌||◌, Option, none, some, if◌then◌else◌, Outcome, ok, ◌>>=◌,
}
use velkar_gpu.Word.{Bytes}
use velkar_gpu.Pow.Header.{RpcBlock}
use velkar_gpu.Client.{VelkardHandler, handle_message, get_block_template_response, give}

-- What a template response tells the miner: nothing, or a block, or that the node is not synced.
pub data Instruction (Body : Type 0) : Type 0 where
  nothing : Instruction Body
  mine : RpcBlock Body → Instruction Body
  stop : Instruction Body

-- The rule for templates, in words of its own: an error is ignored; a block is mined when the node
-- is synced or the option to mine anyway is set; without sync there is no work otherwise.
abbrev pub instruction :
    {Body : Type 0} → Bool → Option (RpcBlock Body) → Bool → Option Bytes → Instruction Body
instruction anyway block synced (some e) = nothing
instruction anyway (some b) synced none = if synced || anyway then mine b else stop
instruction anyway none synced none = if synced then nothing else stop

module _ {Body Miner : Type 0}
    (process_block : Miner → Option (RpcBlock Body) → Outcome Miner) where
  abbrev pub obey : Miner → Instruction Body → Outcome Miner
  obey miner nothing = ok miner
  obey miner (mine b) = process_block miner (some b)
  obey miner stop = process_block miner none

  -- A template response makes the miner do what the rule says, whatever the miner is; the handler
  -- does not change, and an error of the miner is passed on.
  pub handle_message-instruction :
      (h : VelkardHandler Body) (miner : Miner) (block : Option (RpcBlock Body)) (synced : Bool)
      (error : Option Bytes)
      → handle_message process_block h miner (get_block_template_response block synced error) ≡ (
          obey miner (instruction h.mine_when_not_synced block synced error) >>= λ m.
          ok (record { handler = h; miner = m }))
  unfolding handle_message
  handle_message-instruction h miner (some b) true none = refl
  handle_message-instruction h miner (some b) false none = by_option h.mine_when_not_synced
    where
      by_option :
          (anyway : Bool)
          → (if anyway
              then give process_block h miner (some b)
              else give process_block h miner none)
            ≡ (obey miner (if anyway then mine b else stop) >>= λ m.
                ok (record { handler = h; miner = m }))
      by_option true = refl
      by_option false = refl
  handle_message-instruction h miner none false none = refl
  handle_message-instruction h miner none true none = refl
  handle_message-instruction h miner (some b) synced (some e) = refl
  handle_message-instruction h miner none synced (some e) = refl
