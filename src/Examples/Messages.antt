-- ===== src/Examples/Messages.antt =====
-- Messages of a virtual tuner, of vtuner/vtuner_common.c.
use webcamd.Prelude.{◌%◌, ◌≡◌, ◌==◌, ◌||◌, refl}
use webcamd.Vtuner.Messages.{
  Memory, in_field, bswap, bswap_all, v32s, vtuner_data_hdr_byteswap, vtuner_hdr_byteswap, Headers,
  fe_property, fe_get_info, body_fields, is_property, vtuner_body_byteswap,
}
use webcamd.Vtuner.Involution.{byteswap_twice}

-- Filters of 16 bytes; DTV_DISEQC_MASTER and DTV_DISEQC_SLAVE_REPLY.
abbrev headers : Headers
headers = record { dmx_filter_size = 16; takes_buffer = λ cmd. (cmd == 29) || (cmd == 30) }

abbrev bytes : Memory
bytes i = i % 256

byteswap_twice_example :
    (vtuner_data_hdr_byteswap (vtuner_data_hdr_byteswap bytes) ≡ bytes)
    × (vtuner_hdr_byteswap (vtuner_hdr_byteswap bytes) ≡ bytes)
    × (vtuner_body_byteswap headers fe_property (vtuner_body_byteswap headers fe_property bytes)
        ≡ bytes)
byteswap_twice_example = byteswap_twice headers fe_property bytes

-- The first byte of the second number of the information on a frontend.
info_test : vtuner_body_byteswap headers fe_get_info bytes 132 ≡ 135
unfolding vtuner_body_byteswap bswap_all bswap in_field body_fields v32s is_property
info_test = refl
