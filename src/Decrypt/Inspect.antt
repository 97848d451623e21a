-- ===== src/Decrypt/Inspect.antt =====
-- csenc/decrypt.go: `Inspect`, which reads the metadata up to the first data dict.
use cloudsync_decrypt_go.Common.{ℕ, zero, suc, List, none, some, eqb, if◌then◌else◌, codes}
use cloudsync_decrypt_go.Common.{
  top_level_not_dict, missing_type, unknown_type, Result, ok, err, out_of_fuel, ◌>>=◌,
}
use cloudsync_decrypt_go.Wire.{Value, Members, dict, Source, next, lookup_members}
use cloudsync_decrypt_go.Crypto.{Crypto}
use cloudsync_decrypt_go.Metadata.{Metadata, new_metadata, absorb_members}
use cloudsync_decrypt_go.Recover.{consume_magic}
use cloudsync_decrypt_go.Decrypt.{as_str, loop_fuel}

module _ (C : Crypto) where
  -- The metadata after one dict, and whether the loop goes on.
  pub data Seen : Type 0 where
    more stop : Metadata → Seen

  unfoldable pub inspect_typed : List ℕ → Members → Metadata → Result Seen
  inspect_typed t ms m =
      if eqb t (codes "metadata")
      then (absorb_members C ms m >>= λ m'. ok (more m'))
      else if eqb t (codes "data")
      then ok (stop m)
      else err (unknown_type t)

  unfoldable pub inspect_value : Value → Metadata → Result Seen
  inspect_value (dict ms) m = elim (as_str (lookup_members ms (codes "type"))) [
    | some t ↦ inspect_typed t ms m
    | none ↦ err missing_type
  ]
  inspect_value _ m = err top_level_not_dict

  unfoldable pub inspect_loop : ℕ → Source → Metadata → Result Metadata
  inspect_loop zero src m = out_of_fuel
  inspect_loop (suc fuel) src m = elim (next src) [
    | err e ↦ err e
    | out_of_fuel ↦ out_of_fuel
    | ok none ↦ ok m
    | ok (some (v, src')) ↦ elim (inspect_value v m) [
      | err e ↦ err e
      | out_of_fuel ↦ out_of_fuel
      | ok (stop m') ↦ ok m'
      | ok (more m') ↦ inspect_loop fuel src' m'
    ]
  ]

  unfoldable pub inspect : Source → Result Metadata
  inspect r = do src ← consume_magic C r; inspect_loop (loop_fuel src) src new_metadata
