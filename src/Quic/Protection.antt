-- ===== src/Quic/Protection.antt =====
-- kemtls/quic_crypto.py (src/kemtls): the protection of packets, which is that of records under the
-- packet number.
use kemtls.Common.{ℕ, Option, Bytes}
use kemtls.Common.Error.{Result}
use kemtls.Crypto.Primitives.{ChaCha}
use kemtls.RecordLayer.{protect, unprotect}

-- `QUICPacketProtector`
pub record Protector : Type 0 where
  pub key : Option Bytes
  pub iv : Option Bytes

module _ (c : ChaCha) where
  unfoldable pub protect_packet : Protector → ℕ → Bytes → Bytes → Result Bytes
  protect_packet r packet_number payload aad = protect c r.key r.iv packet_number payload aad

  unfoldable pub unprotect_packet : Protector → ℕ → Bytes → Bytes → Result Bytes
  unprotect_packet r packet_number ciphertext aad =
      unprotect c r.key r.iv packet_number ciphertext aad
