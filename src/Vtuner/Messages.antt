-- ===== src/Vtuner/Messages.antt =====
-- The functions of vtuner/vtuner_common.c that turn the bytes of a message around, on the memory from
-- the start of the header or of the body on, with the offsets of the structs of vtuner/vtuner.h.
use webcamd.Prelude.{
  ℕ, zero, suc, ◌+◌, ◌-◌, ◌*◌, ◌/◌, Bool, true, false, ◌&&◌, ◌||◌, ltb, leb, if◌then◌else◌, List,
  [], ◌∷◌,
}

abbrev pub Memory : Type 0
Memory = ℕ → ℕ

-- A number in a struct: where it starts, and its bytes.
pub record Field : Type 0 where
  pub offset : ℕ
  pub width : ℕ

unfoldable pub in_field : Field → ℕ → Bool
in_field f i = leb f.offset i && ltb i (f.offset + f.width)

-- VTUNER_BSWAP16 and its kin: the bytes of the field in the other order.
unfoldable pub bswap : Field → Memory → Memory
unfolding in_field
bswap f m i = if in_field f i then m (f.offset + f.offset + f.width - 1 - i) else m i

-- One swap after the other.
unfoldable pub bswap_all : List Field → Memory → Memory
bswap_all [] m = m
bswap_all (f ∷ fs) m = bswap_all fs (bswap f m)

abbrev pub v16 : ℕ → Field
v16 offset = record { offset = offset; width = 2 }

abbrev pub v32 : ℕ → Field
v32 offset = record { offset = offset; width = 4 }

abbrev pub v64 : ℕ → Field
v64 offset = record { offset = offset; width = 8 }

-- `n` numbers of 32 bits, one behind the other.
unfoldable pub v32s : ℕ → ℕ → List Field
v32s zero offset = []
v32s (suc n) offset = v32 offset ∷ v32s n (offset + 4)

unfoldable pub vtuner_data_hdr_byteswap : Memory → Memory
unfolding bswap_all bswap
vtuner_data_hdr_byteswap m = bswap_all (v32 0 ∷ v32 4 ∷ []) m

-- `mtype`, `magic`, `rx_size`, `tx_size`, `error` and `padding`.
abbrev pub hdr_fields : List Field
hdr_fields = v32 4 ∷ v32 0 ∷ v16 8 ∷ v16 10 ∷ v16 12 ∷ v16 14 ∷ []

unfoldable pub vtuner_hdr_byteswap : Memory → Memory
unfolding bswap_all bswap
vtuner_hdr_byteswap m = bswap_all hdr_fields m

-- What is known of the Linux headers: DMX_FILTER_SIZE, and which commands of a property take a
-- buffer (DTV_DISEQC_MASTER and DTV_DISEQC_SLAVE_REPLY), as numbers of the machine's byte order.
pub record Headers : Type 0 where
  pub dmx_filter_size : ℕ
  pub takes_buffer : ℕ → Bool

-- The types of a body that have a case, by what their cases do.
pub data Request : Type 0 where
  dmx_set_filter dmx_set_pes_filter dmx_get_pes_pids dmx_get_stc : Request
  fe_get_info fe_diseqc_recv_slave_reply fe_frontend fe_get_event fe_property : Request
  value32 value16 other : Request

-- `timeout` of a section filter stands behind the three arrays of the filter, at a multiple of four.
abbrev pub timeout_offset : Headers → ℕ
timeout_offset h = (2 + 3 * h.dmx_filter_size + 3) / 4 * 4

-- The fields of the body that are turned around, in the order of the code, but for properties.
unfoldable pub body_fields : Headers → Request → List Field
unfolding v32s
body_fields h dmx_set_filter = v16 0 ∷ v32 (timeout_offset h) ∷ v32 (timeout_offset h + 4) ∷ []
body_fields h dmx_set_pes_filter = v16 0 ∷ v32s 4 4
body_fields h dmx_get_pes_pids = v16 0 ∷ v16 2 ∷ v16 4 ∷ v16 6 ∷ v16 8 ∷ []
body_fields h dmx_get_stc = v32 0 ∷ v32 4 ∷ v64 8 ∷ []
body_fields h fe_get_info = v32s 10 128
body_fields h fe_diseqc_recv_slave_reply = v32 8 ∷ []
body_fields h fe_frontend = v32s 9 0
body_fields h fe_get_event = v32s 10 0
body_fields h fe_property = v32 0 ∷ []
body_fields h value32 = v32 0 ∷ []
body_fields h value16 = v16 0 ∷ []
body_fields h other = []

-- A number of 32 bits as the machine reads it, the lowest byte first.
unfoldable pub read32 : Memory → ℕ → ℕ
read32 m o = m o + 256 * (m (o + 1) + 256 * (m (o + 2) + 256 * m (o + 3)))

abbrev pub prop_max : ℕ
prop_max = 64

-- sizeof(struct vtuner_dtv_property)
abbrev pub prop_size : ℕ
prop_size = 56

-- `has_buf`: the command takes a buffer, before or after it is turned around.
unfoldable pub has_buf : Headers → ℕ → Memory → Bool
unfolding read32 bswap
has_buf h o m = h.takes_buffer (read32 m o) || h.takes_buffer (read32 (bswap (v32 o) m) o)

-- The fields behind the command: the reserved words, then the length of the buffer or the data.
unfoldable pub rest_fields : Bool → ℕ → List Field
rest_fields buf o =
    v32 (o + 4) ∷ v32 (o + 8) ∷ v32 (o + 12) ∷ (if buf then v32 (o + 48) else v32 (o + 16)) ∷ []

unfoldable pub prop_fields : Bool → ℕ → List Field
unfolding rest_fields
prop_fields buf o = v32 o ∷ rest_fields buf o

unfoldable pub prop_byteswap : Headers → ℕ → Memory → Memory
unfolding bswap_all has_buf prop_fields
prop_byteswap h o m = bswap_all (prop_fields (has_buf h o m) o) m

-- `n` properties from the offset `o` on.
unfoldable pub props_byteswap : Headers → ℕ → ℕ → Memory → Memory
unfolding prop_byteswap
props_byteswap h zero o m = m
props_byteswap h (suc n) o m = props_byteswap h n (o + prop_size) (prop_byteswap h o m)

unfoldable pub is_property : Request → Bool
is_property fe_property = true
is_property _ = false

unfoldable pub vtuner_body_byteswap : Headers → Request → Memory → Memory
unfolding bswap_all body_fields props_byteswap is_property
vtuner_body_byteswap h type m =
    let swapped = bswap_all (body_fields h type) m in
    if is_property type then props_byteswap h prop_max 4 swapped else swapped
