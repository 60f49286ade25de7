-- ===== src/Vtuner/Involution.antt =====
-- Turning a message around twice gives it back.
use webcamd.Prelude.{◌≡◌, true, [], ◌∷◌, refl, arith}
use webcamd.Vtuner.Messages.{
  Memory, in_field, bswap_all, v32, v32s, vtuner_data_hdr_byteswap, hdr_fields, vtuner_hdr_byteswap,
  Headers, Request, dmx_set_filter, dmx_set_pes_filter, dmx_get_pes_pids, dmx_get_stc, fe_get_info,
  fe_diseqc_recv_slave_reply, fe_frontend, fe_get_event, fe_property, value32, value16, other,
  body_fields, is_property, vtuner_body_byteswap,
}
use webcamd.Vtuner.Local.{Apart, compose-Local, Local-twice}
use webcamd.Vtuner.Properties.{
  covers, apart, clear_of, disjoint, bswap_all-Local, of_props, props_byteswap-Local,
}

body_fields-disjoint : (h : Headers) (type : Request) → disjoint (body_fields h type) ≡ true
unfolding disjoint body_fields clear_of apart v32s
body_fields-disjoint h dmx_set_filter = ground arith
body_fields-disjoint h dmx_set_pes_filter = refl
body_fields-disjoint h dmx_get_pes_pids = refl
body_fields-disjoint h dmx_get_stc = refl
body_fields-disjoint h fe_get_info = refl
body_fields-disjoint h fe_diseqc_recv_slave_reply = refl
body_fields-disjoint h fe_frontend = refl
body_fields-disjoint h fe_get_event = refl
body_fields-disjoint h fe_property = refl
body_fields-disjoint h value32 = refl
body_fields-disjoint h value16 = refl
body_fields-disjoint h other = refl

simple_twice :
    (h : Headers) (type : Request) (m : Memory)
    → bswap_all (body_fields h type) (bswap_all (body_fields h type) m) ≡ m
simple_twice h type m =
    Local-twice (bswap_all-Local (body_fields h type) (body_fields-disjoint h type)) m

num-Apart : (h : Headers) → Apart (covers (body_fields h fe_property)) (of_props 64 4)
unfolding covers body_fields in_field of_props
num-Apart h i e = ground (arith, e)

property_twice :
    (h : Headers) (m : Memory)
    → vtuner_body_byteswap h fe_property (vtuner_body_byteswap h fe_property m) ≡ m
unfolding vtuner_body_byteswap is_property
property_twice h m =
    Local-twice
      (compose-Local (num-Apart h)
        (bswap_all-Local (body_fields h fe_property) (body_fields-disjoint h fe_property))
        (props_byteswap-Local h 64 4))
      m

body_twice :
    (h : Headers) (type : Request) (m : Memory)
    → vtuner_body_byteswap h type (vtuner_body_byteswap h type m) ≡ m
unfolding vtuner_body_byteswap is_property
body_twice h dmx_set_filter m = simple_twice h dmx_set_filter m
body_twice h dmx_set_pes_filter m = simple_twice h dmx_set_pes_filter m
body_twice h dmx_get_pes_pids m = simple_twice h dmx_get_pes_pids m
body_twice h dmx_get_stc m = simple_twice h dmx_get_stc m
body_twice h fe_get_info m = simple_twice h fe_get_info m
body_twice h fe_diseqc_recv_slave_reply m = simple_twice h fe_diseqc_recv_slave_reply m
body_twice h fe_frontend m = simple_twice h fe_frontend m
body_twice h fe_get_event m = simple_twice h fe_get_event m
body_twice h fe_property m = property_twice h m
body_twice h value32 m = simple_twice h value32 m
body_twice h value16 m = simple_twice h value16 m
body_twice h other m = simple_twice h other m

-- For a message of any type, whatever the Linux headers say of filters and commands, and any bytes:
-- the header of the data, the header of the message and its body are each what they were after they
-- were turned around twice, also where which field of a property is turned around depends on its
-- command, in the one byte order or the other.
pub byteswap_twice :
    (h : Headers) (type : Request) (m : Memory)
    → (vtuner_data_hdr_byteswap (vtuner_data_hdr_byteswap m) ≡ m)
      × (vtuner_hdr_byteswap (vtuner_hdr_byteswap m) ≡ m)
      × (vtuner_body_byteswap h type (vtuner_body_byteswap h type m) ≡ m)
unfolding vtuner_data_hdr_byteswap vtuner_hdr_byteswap disjoint clear_of apart
byteswap_twice h type m = (
  Local-twice (bswap_all-Local (v32 0 ∷ v32 4 ∷ []) refl) m,
  Local-twice (bswap_all-Local hdr_fields refl) m,
  body_twice h type m,
)
