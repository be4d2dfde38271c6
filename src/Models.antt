-- ===== src/Models.antt =====
-- custom_components/carnet_scolaire/models.py: the data that cross the boundary of the gateway. An aware
-- datetime is its local instant in microseconds and its offset to UTC; its `isoformat()` is a text that
-- determines both, and is modelled by the datetime. A date is a number of days. A number that the
-- source holds in a float is the decimal that it prints as.
pub mod Text
pub mod Timetable
pub mod School
pub mod Lifetime
