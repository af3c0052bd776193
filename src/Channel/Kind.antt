-- ===== src/Channel/Kind.antt =====
-- channel_t::type, and ChannelType of include/channels/cchannel.h.
use push1st.Prelude.{Bytes, codes, starts_with, if◌then◌else◌}

pub data Kind : Type 0 where
  none_kind pub_kind priv_kind pres_kind prot_kind : Kind

-- Names choose their type by a prefix.
unfoldable pub channel_type : Bytes → Kind
unfolding starts_with
channel_type name =
    if starts_with (codes "private-") name
    then priv_kind
    else if starts_with (codes "presence-") name
    then pres_kind
    else if starts_with (codes "protected-") name
    then prot_kind
    else pub_kind
