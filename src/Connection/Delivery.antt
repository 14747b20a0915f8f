-- ===== src/Connection/Delivery.antt =====
-- What the user of a connected session hears, as the log of the connection shows it.
pub mod Log
pub mod OneFrame
pub mod Loop
pub mod Reading
pub mod Growth
pub mod Encrypted
pub mod Opening
pub mod Welcome
pub mod Connects
