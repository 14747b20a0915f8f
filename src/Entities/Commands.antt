-- ===== src/Entities/Commands.antt =====
-- The commands of the domains and the requests they become, as families over the domain: the overloads of
-- `to_message` in src/model/entities.
use cpp_esphome_api.Base.{◌≡◌}
use cpp_esphome_api.EntityType.{
  EntityType, unknown, binary_sensor, sensor, text_sensor, switch, light, cover, fan, climate,
  number, select, text, button, lock, media_player, camera, siren, alarm_control_panel, date, time,
  date_time, valve, event, update, water_heater, infrared, radio_frequency,
}
use cpp_esphome_api.Entities.Switch
use cpp_esphome_api.Entities.Switch.{SwitchCommand, SwitchCommandRequest}
use cpp_esphome_api.Entities.Light
use cpp_esphome_api.Entities.Light.{LightCommand, LightCommandRequest}
use cpp_esphome_api.Entities.Cover
use cpp_esphome_api.Entities.Cover.{CoverCommand, CoverCommandRequest}
use cpp_esphome_api.Entities.Fan
use cpp_esphome_api.Entities.Fan.{FanCommand, FanCommandRequest}
use cpp_esphome_api.Entities.Climate
use cpp_esphome_api.Entities.Climate.{ClimateCommand, ClimateCommandRequest}
use cpp_esphome_api.Entities.Number
use cpp_esphome_api.Entities.Number.{NumberCommand, NumberCommandRequest}
use cpp_esphome_api.Entities.Select
use cpp_esphome_api.Entities.Select.{SelectCommand, SelectCommandRequest}
use cpp_esphome_api.Entities.Text
use cpp_esphome_api.Entities.Text.{TextCommand, TextCommandRequest}
use cpp_esphome_api.Entities.Button
use cpp_esphome_api.Entities.Button.{ButtonCommand, ButtonCommandRequest}
use cpp_esphome_api.Entities.Lock
use cpp_esphome_api.Entities.Lock.{LockCommandData, LockCommandRequest}
use cpp_esphome_api.Entities.MediaPlayer
use cpp_esphome_api.Entities.MediaPlayer.{MediaPlayerControl, MediaPlayerCommandRequest}
use cpp_esphome_api.Entities.Siren
use cpp_esphome_api.Entities.Siren.{SirenCommand, SirenCommandRequest}
use cpp_esphome_api.Entities.AlarmControlPanel
use cpp_esphome_api.Entities.AlarmControlPanel.{
  AlarmControlPanelCommand, AlarmControlPanelCommandRequest,
}
use cpp_esphome_api.Entities.Date
use cpp_esphome_api.Entities.Date.{DateCommand, DateCommandRequest}
use cpp_esphome_api.Entities.Time
use cpp_esphome_api.Entities.Time.{TimeCommand, TimeCommandRequest}
use cpp_esphome_api.Entities.DateTime
use cpp_esphome_api.Entities.DateTime.{DateTimeCommand, DateTimeCommandRequest}
use cpp_esphome_api.Entities.Valve
use cpp_esphome_api.Entities.Valve.{ValveCommand, ValveCommandRequest}
use cpp_esphome_api.Entities.Update
use cpp_esphome_api.Entities.Update.{UpdateControl, UpdateCommandRequest}
use cpp_esphome_api.Entities.WaterHeater
use cpp_esphome_api.Entities.WaterHeater.{WaterHeaterCommand, WaterHeaterCommandRequest}

-- What a client asks of an entity.
abbrev pub Command : EntityType → Type 0
Command switch = SwitchCommand
Command light = LightCommand
Command cover = CoverCommand
Command fan = FanCommand
Command climate = ClimateCommand
Command number = NumberCommand
Command select = SelectCommand
Command text = TextCommand
Command button = ButtonCommand
Command lock = LockCommandData
Command media_player = MediaPlayerControl
Command siren = SirenCommand
Command alarm_control_panel = AlarmControlPanelCommand
Command date = DateCommand
Command time = TimeCommand
Command date_time = DateTimeCommand
Command valve = ValveCommand
Command update = UpdateControl
Command water_heater = WaterHeaterCommand
Command _ = ⊥

-- XCommandRequest.
abbrev pub CommandRequest : EntityType → Type 0
CommandRequest switch = SwitchCommandRequest
CommandRequest light = LightCommandRequest
CommandRequest cover = CoverCommandRequest
CommandRequest fan = FanCommandRequest
CommandRequest climate = ClimateCommandRequest
CommandRequest number = NumberCommandRequest
CommandRequest select = SelectCommandRequest
CommandRequest text = TextCommandRequest
CommandRequest button = ButtonCommandRequest
CommandRequest lock = LockCommandRequest
CommandRequest media_player = MediaPlayerCommandRequest
CommandRequest siren = SirenCommandRequest
CommandRequest alarm_control_panel = AlarmControlPanelCommandRequest
CommandRequest date = DateCommandRequest
CommandRequest time = TimeCommandRequest
CommandRequest date_time = DateTimeCommandRequest
CommandRequest valve = ValveCommandRequest
CommandRequest update = UpdateCommandRequest
CommandRequest water_heater = WaterHeaterCommandRequest
CommandRequest _ = ⊥

-- The overload of the domain.
unfoldable pub to_message : (t : EntityType) → Command t → CommandRequest t
to_message switch cmd = Switch.to_message cmd
to_message light cmd = Light.to_message cmd
to_message cover cmd = Cover.to_message cmd
to_message fan cmd = Fan.to_message cmd
to_message climate cmd = Climate.to_message cmd
to_message number cmd = Number.to_message cmd
to_message select cmd = Select.to_message cmd
to_message text cmd = Text.to_message cmd
to_message button cmd = Button.to_message cmd
to_message lock cmd = Lock.to_message cmd
to_message media_player cmd = MediaPlayer.to_message cmd
to_message siren cmd = Siren.to_message cmd
to_message alarm_control_panel cmd = AlarmControlPanel.to_message cmd
to_message date cmd = Date.to_message cmd
to_message time cmd = Time.to_message cmd
to_message date_time cmd = DateTime.to_message cmd
to_message valve cmd = Valve.to_message cmd
to_message update cmd = Update.to_message cmd
to_message water_heater cmd = WaterHeater.to_message cmd
to_message unknown cmd = elim cmd [ ]
to_message binary_sensor cmd = elim cmd [ ]
to_message sensor cmd = elim cmd [ ]
to_message text_sensor cmd = elim cmd [ ]
to_message camera cmd = elim cmd [ ]
to_message event cmd = elim cmd [ ]
to_message infrared cmd = elim cmd [ ]
to_message radio_frequency cmd = elim cmd [ ]

-- What a device takes from a request by the flags of proto/api.proto.
unfoldable pub read_command : (t : EntityType) → CommandRequest t → Command t
read_command switch msg = Switch.read_command msg
read_command light msg = Light.read_command msg
read_command cover msg = Cover.read_command msg
read_command fan msg = Fan.read_command msg
read_command climate msg = Climate.read_command msg
read_command number msg = Number.read_command msg
read_command select msg = Select.read_command msg
read_command text msg = Text.read_command msg
read_command button msg = Button.read_command msg
read_command lock msg = Lock.read_command msg
read_command media_player msg = MediaPlayer.read_command msg
read_command siren msg = Siren.read_command msg
read_command alarm_control_panel msg = AlarmControlPanel.read_command msg
read_command date msg = Date.read_command msg
read_command time msg = Time.read_command msg
read_command date_time msg = DateTime.read_command msg
read_command valve msg = Valve.read_command msg
read_command update msg = Update.read_command msg
read_command water_heater msg = WaterHeater.read_command msg
read_command unknown msg = elim msg [ ]
read_command binary_sensor msg = elim msg [ ]
read_command sensor msg = elim msg [ ]
read_command text_sensor msg = elim msg [ ]
read_command camera msg = elim msg [ ]
read_command event msg = elim msg [ ]
read_command infrared msg = elim msg [ ]
read_command radio_frequency msg = elim msg [ ]

-- The request of a command has all of it: a device that takes a value when its flag says so reads, in every
-- domain, the command that was sent, with the values that were given and no others.
pub read_command-to_message :
    (t : EntityType) (cmd : Command t) → read_command t (to_message t cmd) ≡ cmd
unfolding read_command to_message
read_command-to_message switch cmd = Switch.read_command-to_message cmd
read_command-to_message light cmd = Light.read_command-to_message cmd
read_command-to_message cover cmd = Cover.read_command-to_message cmd
read_command-to_message fan cmd = Fan.read_command-to_message cmd
read_command-to_message climate cmd = Climate.read_command-to_message cmd
read_command-to_message number cmd = Number.read_command-to_message cmd
read_command-to_message select cmd = Select.read_command-to_message cmd
read_command-to_message text cmd = Text.read_command-to_message cmd
read_command-to_message button cmd = Button.read_command-to_message cmd
read_command-to_message lock cmd = Lock.read_command-to_message cmd
read_command-to_message media_player cmd = MediaPlayer.read_command-to_message cmd
read_command-to_message siren cmd = Siren.read_command-to_message cmd
read_command-to_message alarm_control_panel cmd = AlarmControlPanel.read_command-to_message cmd
read_command-to_message date cmd = Date.read_command-to_message cmd
read_command-to_message time cmd = Time.read_command-to_message cmd
read_command-to_message date_time cmd = DateTime.read_command-to_message cmd
read_command-to_message valve cmd = Valve.read_command-to_message cmd
read_command-to_message update cmd = Update.read_command-to_message cmd
read_command-to_message water_heater cmd = WaterHeater.read_command-to_message cmd
read_command-to_message unknown cmd = elim cmd [ ]
read_command-to_message binary_sensor cmd = elim cmd [ ]
read_command-to_message sensor cmd = elim cmd [ ]
read_command-to_message text_sensor cmd = elim cmd [ ]
read_command-to_message camera cmd = elim cmd [ ]
read_command-to_message event cmd = elim cmd [ ]
read_command-to_message infrared cmd = elim cmd [ ]
read_command-to_message radio_frequency cmd = elim cmd [ ]
