-- ===== src/Modbus/Tests.antt =====
-- Frames of two registers.
use open_machine_protocol.Prelude.{
  ◌≡◌, ◌↔◌, ◌+◌, ◌*◌, ◌==◌, refl, inl, inr, [], ◌∷◌, ◌++◌, arith, if◌then◌else◌,
}
use open_machine_protocol.Prelude.Int.{pos}
use open_machine_protocol.Modbus.{
  ok, raised, crc_mismatch, crc16, resolve_address, parse_read_tcp, parse_read_rtu,
}
use open_machine_protocol.Modbus.Address.{Names, resolve_address_iff}
use open_machine_protocol.Modbus.Frames.{
  response_pdu, response_tcp, response_rtu, parse_read_tcp-response, parse_read_rtu-response,
}

resolve_address_iff_example : (resolve_address (pos 40002) ≡ ok (3, 1)) ↔ Names 40002 3 1
resolve_address_iff_example = resolve_address_iff 40002 3 1

parse_read_tcp-response_example :
    parse_read_tcp (response_tcp 7 1 3 (258 ∷ 65535 ∷ []) ++ 9 ∷ []) 7 3 ≡ ok (258 ∷ 65535 ∷ [])
parse_read_tcp-response_example =
    parse_read_tcp-response 7 1 3 (258 ∷ 65535 ∷ []) (9 ∷ []) (inl refl)

parse_read_rtu-response_example : parse_read_rtu (response_rtu 1 4 (258 ∷ []) 12 34) 1 4 ≡ (
    if crc16 (1 ∷ response_pdu 4 (258 ∷ [])) == 34 * 256 + 12
    then ok (258 ∷ [])
    else raised crc_mismatch)
parse_read_rtu-response_example =
    parse_read_rtu-response 1 4 12 34 (258 ∷ []) (inr refl) (omega arith)
