-- ===== src/Tests/Services.antt =====
-- The laws of the checkpoints, of the faucet's service and of the script codec, at concrete data.
use ckb_dex.Prelude.{
  refl, ℕ, Option, List, String, none, some, [], suc, if◌then◌else◌, ◌∷◌, zero, eqb, arith, false,
  ◌≡◌, ◌+◌,
}
use ckb_dex.Bot.Forks.{IsCut, find_fork-IsCut}
use ckb_dex.Faucet.Claims.{ClaimLimits, Store}
use ckb_dex.Faucet.Service.{Outside, Request, claim}
use ckb_dex.ScriptCodec.{decode_script, script_bytes, hash_type_to_byte}
use ckb_dex.Bot.Checkpoints.{Checkpoint, find_fork}
use ckb_dex.Prelude.Result.{ok}
use ckb_dex.Faucet.Service.Laws.{Accounts, claim-Accounts}
use ckb_dex.Order.{type1}
use ckb_dex.Bytes.{to_hex}
use ckb_dex.ScriptCodec.Laws.{decode_script-script_bytes}

abbrev canonical : ℕ → Option String
canonical number = if eqb number 5 then some "0xb5" else none

abbrev checkpoints : List Checkpoint
checkpoints = record { number = 6; hash = "0xb6" } ∷ record { number = 5; hash = "0xb5" } ∷ []

find_fork-IsCut_example : IsCut canonical none checkpoints (find_fork canonical none checkpoints)
find_fork-IsCut_example = find_fork-IsCut canonical none checkpoints

abbrev limits : ClaimLimits
limits = record {
  cooldown_ms = 1000;
  reservation_timeout_ms = 300;
  drip_amount = 100;
  daily_max_claims = 2;
  daily_max_tokens = 500;
}

abbrev outside : Outside
outside = record {
  length_of = λ address. 4;
  lock_hash_of = λ address. some "0xl";
  send = λ lock_hash. ok "0xtx";
  commit_throws = λ left. eqb left 2;
  release_throws = false;
}

abbrev request : Request
request = record { address = "ckt1"; reservation_id = "r1"; day = "monday"; now = 10; sent_at = 20 }

abbrev empty : Store
empty = record { claims = λ key. none; budgets = λ day. none }

claim-Accounts_example :
    Accounts limits outside request empty
      (claim limits outside request empty).0
      (claim limits outside request empty).1
claim-Accounts_example = claim-Accounts limits outside request empty refl

abbrev repeated : ℕ → ℕ → List ℕ
repeated zero b = []
repeated (suc n) b = b ∷ repeated n b

decode_script-script_bytes_example :
    decode_script (script_bytes (repeated 32 170) (hash_type_to_byte type1) (1 ∷ 2 ∷ []) (9 ∷ [])) 0
    ≡ ok (
      record {
        code_hash = to_hex (repeated 32 170);
        hash_type = type1;
        args = to_hex (1 ∷ 2 ∷ []);
      },
      53 + 2,
    )
decode_script-script_bytes_example =
    decode_script-script_bytes (repeated 32 170) type1 (1 ∷ 2 ∷ []) (9 ∷ []) refl (omega arith)
