-- ===== src/Entities/MediaPlayer.antt =====
-- include/esphome/api/model/entities/media_player.hpp and
-- src/model/entities/media_player.cpp, with the messages of proto/api.proto that they use.
use cpp_esphome_api.Base.{ℕ, ◌≡◌, refl, Bool, false, Option, List, []}
use mathlib.Core.List
use cpp_esphome_api.Entities.Common.{
  EntityInfo, ListMessage, fill_entity_info, has_value, value_or, reading, reading-value_or,
}

pub record ProtoMediaPlayerSupportedFormat : Type 0 where
  pub format : List ℕ
  pub sample_rate : ℕ
  pub num_channels : ℕ
  pub purpose : ℕ
  pub sample_bytes : ℕ

pub record ListEntitiesMediaPlayerResponse : Type 0 where
  pub object_id : List ℕ
  pub key : ℕ
  pub name : List ℕ
  pub icon : List ℕ
  pub disabled_by_default : Bool
  pub entity_category : ℕ
  pub supports_pause : Bool
  pub supported_formats : List ProtoMediaPlayerSupportedFormat
  pub device_id : ℕ
  pub feature_flags : ℕ

pub record MediaPlayerSupportedFormat : Type 0 where
  pub format : List ℕ
  pub sample_rate : ℕ
  pub num_channels : ℕ
  pub purpose : ℕ
  pub sample_bytes : ℕ

pub record MediaPlayerInfo : Type 0 where
  pub entity_info : EntityInfo
  pub supports_pause : Bool
  pub supported_formats : List MediaPlayerSupportedFormat

instance abbrev pub media_player_list : ListMessage ListEntitiesMediaPlayerResponse
media_player_list = record {
  object_id = λ msg. msg.object_id;
  key = λ msg. msg.key;
  name = λ msg. msg.name;
  icon = λ msg. msg.icon;
  disabled_by_default = λ msg. msg.disabled_by_default;
  entity_category = λ msg. msg.entity_category;
  device_id = λ msg. msg.device_id;
}

supported_format : ProtoMediaPlayerSupportedFormat → MediaPlayerSupportedFormat
supported_format fmt = record {
  format = fmt.format;
  sample_rate = fmt.sample_rate;
  num_channels = fmt.num_channels;
  purpose = fmt.purpose;
  sample_bytes = fmt.sample_bytes;
}

unfoldable pub parse_media_player_info : ListEntitiesMediaPlayerResponse → MediaPlayerInfo
unfolding supported_format
parse_media_player_info msg = record {
  entity_info = fill_entity_info msg;
  supports_pause = msg.supports_pause;
  supported_formats = List.map supported_format msg.supported_formats;
}

pub record MediaPlayerStateResponse : Type 0 where
  pub key : ℕ
  pub state : ℕ
  pub volume : ℕ
  pub muted : Bool
  pub device_id : ℕ

pub record MediaPlayerStatus : Type 0 where
  pub key : ℕ
  pub state : ℕ
  pub volume : ℕ
  pub muted : Bool

unfoldable pub parse_media_player_state : MediaPlayerStateResponse → MediaPlayerStatus
parse_media_player_state msg = record {
  key = msg.key;
  state = msg.state;
  volume = msg.volume;
  muted = msg.muted;
}

pub record MediaPlayerCommandRequest : Type 0 where
  pub key : ℕ
  pub has_command : Bool
  pub command : ℕ
  pub has_volume : Bool
  pub volume : ℕ
  pub has_media_url : Bool
  pub media_url : List ℕ
  pub has_announcement : Bool
  pub announcement : Bool
  pub device_id : ℕ

pub record MediaPlayerControl : Type 0 where
  pub key : ℕ
  pub command : Option ℕ
  pub volume : Option ℕ
  pub media_url : Option (List ℕ)
  pub announcement : Option Bool

unfoldable pub to_message : MediaPlayerControl → MediaPlayerCommandRequest
to_message cmd = record {
  key = cmd.key;
  has_command = has_value cmd.command;
  command = value_or 0 cmd.command;
  has_volume = has_value cmd.volume;
  volume = value_or 0 cmd.volume;
  has_media_url = has_value cmd.media_url;
  media_url = value_or [] cmd.media_url;
  has_announcement = has_value cmd.announcement;
  announcement = value_or false cmd.announcement;
  device_id = 0;
}

-- What a device takes from a request: a value behind a flag counts when the flag is set.
unfoldable pub read_command : MediaPlayerCommandRequest → MediaPlayerControl
read_command msg = record {
  key = msg.key;
  command = reading msg.has_command msg.command;
  volume = reading msg.has_volume msg.volume;
  media_url = reading msg.has_media_url msg.media_url;
  announcement = reading msg.has_announcement msg.announcement;
}

-- A device reads the command that was sent.
pub read_command-to_message : (cmd : MediaPlayerControl) → read_command (to_message cmd) ≡ cmd
unfolding read_command to_message
read_command-to_message cmd =
    rw
      (
        reading-value_or 0 cmd.command,
        reading-value_or 0 cmd.volume,
        reading-value_or [] cmd.media_url,
        reading-value_or false cmd.announcement,
      )
      refl
